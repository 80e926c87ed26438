-- ===== src/Session/Segments/Letters.antt =====
-- Cutting a narration into sentences loses nothing that is spoken.
use sttork.Base.{
  ℕ, suc, ◌≡◌, refl, sym, ap, ◌∙◌, Bool, true, false, not, ◌&&◌, List, [], ◌∷◌, ◌++◌, append_assoc,
  if◌then◌else◌, any, length, arith, Bool-cases, inl, inr, ◌==◌,
}
use sttork.Base.Text.{Text, first_line, is_space, trim, trim_start, trim_end}
use sttork.Session.Segments.{
  is_sentence_punctuation, replace_spaces, append_narration_segment, ends_here, segments_from,
  segment_narration_line, split_lines, flat_map, narration_segments,
}

-- What is neither white space nor sentence punctuation.
unfoldable pub is_spoken : ℕ → Bool
is_spoken c = not (is_space c) && not (is_sentence_punctuation c)

-- The spoken units of a text, in their order.
unfoldable pub spoken : Text → Text
unfolding is_spoken
spoken [] = []
spoken (c ∷ s) = if is_spoken c then c ∷ spoken s else spoken s

abbrev pub joined : List Text → Text
joined [] = []
joined (t ∷ ts) = t ++ joined ts

spoken-append : (s t : Text) → spoken (s ++ t) ≡ spoken s ++ spoken t
unfolding spoken
spoken-append [] t = refl
spoken-append (c ∷ s) t = ground (arith, spoken-append s t)

spoken-space : (c : ℕ) (s : Text) → is_space c ≡ true → spoken (c ∷ s) ≡ spoken s
unfolding spoken is_spoken
spoken-space c s h = ground arith

spoken-trim_start : (s : Text) → spoken (trim_start s) ≡ spoken s
unfolding trim_start
spoken-trim_start [] = refl
spoken-trim_start (c ∷ s) = ground (arith, spoken-trim_start s, spoken-space c s)

spoken-trim_end : (s : Text) → spoken (trim_end s) ≡ spoken s
unfolding trim_end spoken is_spoken
spoken-trim_end [] = refl
spoken-trim_end (c ∷ s) = ground (arith, spoken-trim_end s)

spoken-trim : (s : Text) → spoken (trim s) ≡ spoken s
unfolding trim
spoken-trim s = spoken-trim_end (trim_start s) ∙ spoken-trim_start s

spoken-replace : (b : Bool) (s : Text) → spoken (replace_spaces b s) ≡ spoken s
unfolding replace_spaces spoken is_spoken is_space
spoken-replace b [] = refl
spoken-replace b (c ∷ s) = ground (arith, spoken-replace (is_space c) s)

-- A segment that is dropped has nothing spoken.
silent : (s : Text) → any (λ c. not (is_sentence_punctuation c)) s ≡ false → spoken s ≡ []
unfolding spoken is_spoken
silent [] h = refl
silent (c ∷ s) h = ground (arith, silent s)

positive : (n : ℕ) → (suc n == 0) ≡ false
positive n = ground arith

spoken-kept :
    (segment : Text) (rest : List Text)
    → spoken (
        joined (
          if not (length segment == 0) && any (λ c. not (is_sentence_punctuation c)) segment
          then segment ∷ rest
          else rest))
      ≡ spoken segment ++ spoken (joined rest)
spoken-kept [] rest = unfold spoken in refl
spoken-kept (c ∷ s) rest = elim (Bool-cases (any (λ c. not (is_sentence_punctuation c)) (c ∷ s))) [
  | inl e ↦ rw (e, positive (length s)) (spoken-append (c ∷ s) (joined rest))
  | inr e ↦ rw (e, positive (length s), silent (c ∷ s) e) refl
]

spoken-segment :
    (value : Text) (rest : List Text)
    → spoken (joined (append_narration_segment value rest)) ≡ spoken value ++ spoken (joined rest)
unfolding append_narration_segment
spoken-segment value rest =
    spoken-kept (replace_spaces false (trim value)) rest
    ∙ ap (λ t. t ++ spoken (joined rest)) (spoken-replace false (trim value) ∙ spoken-trim value)

-- One unit moved from what is left to what has been read.
spoken-shift :
    (current : Text) (c : ℕ) (s : Text)
    → spoken (current ++ c ∷ []) ++ spoken s ≡ spoken current ++ spoken (c ∷ s)
spoken-shift current c s =
    sym (spoken-append (current ++ c ∷ []) s)
    ∙ ap spoken (append_assoc current (c ∷ []) s)
    ∙ spoken-append current (c ∷ s)

segments_from-cut :
    (current : Text) (c : ℕ) (s : Text)
    → (is_sentence_punctuation c && ends_here s) ≡ true
    → segments_from current (c ∷ s)
      ≡ append_narration_segment (current ++ c ∷ []) (segments_from [] s)
unfolding segments_from
segments_from-cut current c s h = ground arith

segments_from-go :
    (current : Text) (c : ℕ) (s : Text)
    → (is_sentence_punctuation c && ends_here s) ≡ false
    → segments_from current (c ∷ s) ≡ segments_from (current ++ c ∷ []) s
unfolding segments_from
segments_from-go current c s h = ground arith

spoken-segments_from :
    (current s : Text) → spoken (joined (segments_from current s)) ≡ spoken current ++ spoken s
unfolding segments_from spoken
spoken-segments_from current [] = spoken-segment current []
spoken-segments_from current (c ∷ s) =
    elim (Bool-cases (is_sentence_punctuation c && ends_here s)) [
      | inl e ↦
          rw
            (
              segments_from-cut current c s e,
              spoken-segment (current ++ c ∷ []) (segments_from [] s),
              spoken-segments_from [] s,
            )
            (spoken-shift current c s)
      | inr e ↦
          rw (segments_from-go current c s e, spoken-segments_from (current ++ c ∷ []) s)
            (spoken-shift current c s)
    ]

spoken-line : (line : Text) → spoken (joined (segment_narration_line line)) ≡ spoken line
unfolding segment_narration_line spoken
spoken-line line = spoken-segments_from [] (trim line) ∙ spoken-trim line

joined-append : (ss ts : List Text) → joined (ss ++ ts) ≡ joined ss ++ joined ts
joined-append [] ts = refl
joined-append (s ∷ ss) ts = rw (joined-append ss ts) (sym (append_assoc s (joined ss) (joined ts)))

spoken-flat_map :
    (ls : List Text) → spoken (joined (flat_map segment_narration_line ls)) ≡ spoken (joined ls)
spoken-flat_map [] = refl
spoken-flat_map (l ∷ ls) =
    rw
      (
        joined-append (segment_narration_line l) (flat_map segment_narration_line ls),
        spoken-append (joined (segment_narration_line l))
            (joined (flat_map segment_narration_line ls)),
        spoken-line l,
        spoken-flat_map ls,
        spoken-append l (joined ls),
      )
      refl

joined-first_line : (c : ℕ) (ls : List Text) → joined (first_line c ls) ≡ c ∷ joined ls
joined-first_line c [] = refl
joined-first_line c (l ∷ ls) = refl

spoken-split_lines : (text : Text) → spoken (joined (split_lines text)) ≡ spoken text
unfolding split_lines spoken is_spoken is_space
spoken-split_lines [] = refl
spoken-split_lines (c ∷ s) =
    ground (arith, spoken-split_lines s, joined-first_line c (split_lines s))

-- Whatever the text, the segments of its narration, read one after the other, have exactly the
-- text's spoken units in the text's order: only white space and sentence punctuation may go.
pub narration_segments-spoken :
    (text : Text) → spoken (joined (narration_segments text)) ≡ spoken text
unfolding narration_segments
narration_segments-spoken text = spoken-flat_map (split_lines text) ∙ spoken-split_lines text
