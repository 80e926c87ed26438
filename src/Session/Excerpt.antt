-- ===== src/Session/Excerpt.antt =====
-- Which narration of the opening is accepted: `isOrderedExactLineSubsequence`,
-- `hasUnsafeNarrationControl` and `validatedOpeningNarrationText` of
-- packages/session/src/semantic-turn-coordinator.ts.
use sttork.Base.{
  holds-true, holds-sound, subst, Option, none, some, ℕ, ◌≡◌, refl, ◌↔◌, Bool, true, false, not,
  ◌&&◌, ◌||◌, List, [], ◌∷◌, ◌==◌, ltb, if◌then◌else◌, any, length, arith, Bool-cases, inl, inr,
}
use sttork.Base.Text.{Text, first_line, ◌===◌, is_control, trim, Text-discrete}
use sttork.Base.Outcome.{Outcome, ok, ◌>>◌, require}

abbrev pub max_opening_output_length : ℕ
max_opening_output_length = 32_768

-- `text.split("\n")`
unfoldable pub lines : Text → List Text
lines [] = [] ∷ []
lines (c ∷ s) = let rest = lines s in if c == 10 then [] ∷ rest else first_line c rest

-- The inner `while`, and the step past the line it found: the source lines after the first that is
-- the candidate line, `none` if there is none.
unfoldable pub skip_to : List Text → Text → Option (List Text)
skip_to [] c = none
skip_to (s ∷ ss) c = let rest = skip_to ss c in if s === c then some ss else rest

-- The loop over the candidate lines.
unfoldable pub ordered_lines : List Text → List Text → Bool
ordered_lines source [] = true
ordered_lines source (c ∷ cs) = elim (skip_to source c) [
  | none ↦ false
  | some rest ↦ ordered_lines rest cs
]

unfoldable pub is_ordered_exact_line_subsequence : (source candidate : Text) → Bool
unfolding lines ordered_lines skip_to
is_ordered_exact_line_subsequence source candidate = ordered_lines (lines source) (lines candidate)

-- Every control but the tab, the line feed and the carriage return.
unfoldable pub has_unsafe_narration_control : Text → Bool
has_unsafe_narration_control =
    any (λ c. not (c == 9) && not (c == 10) && not (c == 13) && is_control c)

-- `validatedOpeningNarrationText` on a string; its `TypeError` carries nothing.
unfoldable pub validated_opening_narration_text :
    (input exact_output : Text) → Outcome (Unit {0}) Text
unfolding trim has_unsafe_narration_control is_ordered_exact_line_subsequence
validated_opening_narration_text input exact_output = do
  require
      (not (
        (length (trim input) == 0)
        || ltb max_opening_output_length (length input)
        || has_unsafe_narration_control input
        || not (is_ordered_exact_line_subsequence exact_output input)))
      tt
  ok input

-- The lines whose flag is `true`, in their order.
unfoldable pub kept : List Bool → List Text → List Text
kept [] ss = []
kept (b ∷ bs) [] = []
kept (b ∷ bs) (s ∷ ss) = if b then s ∷ kept bs ss else kept bs ss

ordered-step :
    (s c : Text) (ss cs : List Text)
    → ordered_lines (s ∷ ss) (c ∷ cs)
      ≡ (if s === c then ordered_lines ss cs else ordered_lines ss (c ∷ cs))
unfolding ordered_lines skip_to
ordered-step s c ss cs = ground arith

-- A candidate that is found stays found with a line more before it, and without its first line.
ordered-weaken_of :
    (s : Text) (ss cs : List Text)
    → ((c : Text) (cs : List Text) → ordered_lines ss (c ∷ cs) ≡ true → ordered_lines ss cs ≡ true)
    → ordered_lines ss cs ≡ true
    → ordered_lines (s ∷ ss) cs ≡ true
ordered-weaken_of s ss [] drop h = unfold ordered_lines in refl
ordered-weaken_of s ss (c ∷ cs) drop h = elim (Bool-cases (s === c)) [
  | inl e ↦ rw (ordered-step s c ss cs, e) (drop c cs h)
  | inr e ↦ rw (ordered-step s c ss cs, e) h
]

ordered-drop :
    (ss : List Text) (c : Text) (cs : List Text)
    → ordered_lines ss (c ∷ cs) ≡ true
    → ordered_lines ss cs ≡ true
unfolding ordered_lines skip_to
ordered-drop [] c cs h = absurd (ground arith)
ordered-drop (s ∷ ss) c cs h =
    let weaken = ordered-weaken_of s ss cs (ordered-drop ss) in
    elim (Bool-cases (s === c)) [
      | inl e ↦ weaken (ground (arith, ordered-step s c ss cs))
      | inr e ↦ weaken (ordered-drop ss c cs (ground (arith, ordered-step s c ss cs)))
    ]

kept-ordered : (bs : List Bool) (ss : List Text) → ordered_lines ss (kept bs ss) ≡ true
unfolding kept ordered_lines
kept-ordered [] ss = refl
kept-ordered (b ∷ bs) [] = refl
kept-ordered (true ∷ bs) (s ∷ ss) =
    rw (ordered-step s s ss (kept bs ss), holds-true (Text-discrete s s) refl) (kept-ordered bs ss)
kept-ordered (false ∷ bs) (s ∷ ss) =
    ordered-weaken_of s ss (kept bs ss) (ordered-drop ss) (kept-ordered bs ss)

cons-same :
    {s c : Text} {ss cs : List Text} → s ≡ c → ss ≡ cs → ◌≡◌ {A = List Text} (s ∷ ss) (c ∷ cs)
cons-same h hs = cc

ordered-kept :
    (ss cs : List Text) → ordered_lines ss cs ≡ true → (bs : List Bool) × (kept bs ss ≡ cs)
unfolding kept ordered_lines skip_to
ordered-kept ss [] h = ([], refl)
ordered-kept [] (c ∷ cs) h = absurd (ground arith)
ordered-kept (s ∷ ss) (c ∷ cs) h = elim (Bool-cases (s === c)) [
  | inl e ↦
      let (bs, p) = ordered-kept ss cs (ground (arith, ordered-step s c ss cs)) in
      (true ∷ bs, cons-same (holds-sound (Text-discrete s c) e) p)
  | inr e ↦
      let (bs, p) = ordered-kept ss (c ∷ cs) (ground (arith, ordered-step s c ss cs)) in
      (false ∷ bs, p)
]

-- The test accepts a candidate exactly when its lines are those of the source with some left out:
-- exact copies, in the source's order.
pub is_ordered_exact_line_subsequence_iff :
    (source candidate : Text)
    → (is_ordered_exact_line_subsequence source candidate ≡ true)
      ↔ ((bs : List Bool) × (kept bs (lines source) ≡ lines candidate))
unfolding is_ordered_exact_line_subsequence
is_ordered_exact_line_subsequence_iff source candidate = (
  ordered-kept (lines source) (lines candidate),
  λ (bs, p).
      subst (λ cs. ordered_lines (lines source) cs ≡ true) p (kept-ordered bs (lines source)),
)
