-- ===== src/Session/Segments.antt =====
-- How a narration is cut into sentences: `narrationSegments` and the functions it calls, of
-- packages/session/src/semantic-turn-coordinator.ts.
pub mod Letters
use sttork.Base.{
  ℕ, Bool, true, false, not, ◌&&◌, ◌||◌, List, [], ◌∷◌, ◌++◌, ◌==◌, if◌then◌else◌, any, length,
}
use sttork.Base.Text.{Text, first_line, is_space, trim}

unfoldable pub is_sentence_punctuation : ℕ → Bool
is_sentence_punctuation c = (c == b'.') || (c == b'!') || (c == b'?')

-- `.replace(/\s+/gu, " ")`; `in_run` says that the last unit was white space.
unfoldable pub replace_spaces : Bool → Text → Text
replace_spaces in_run [] = []
replace_spaces in_run (c ∷ s) =
    let rest = replace_spaces (is_space c) s in
    if is_space c then (if in_run then rest else 32 ∷ rest) else c ∷ rest

-- `appendNarrationSegment` before the segments `rest` that come later.
unfoldable pub append_narration_segment : Text → List Text → List Text
unfolding trim replace_spaces is_sentence_punctuation
append_narration_segment value rest =
    let segment = replace_spaces false (trim value) in
    if not (length segment == 0) && any (λ c. not (is_sentence_punctuation c)) segment
    then segment ∷ rest
    else rest

-- `punctuationEnd === value.length || isWhitespace(value[punctuationEnd])`. It is false when more
-- punctuation follows, which the source's inner `while` steps over.
abbrev pub ends_here : Text → Bool
ends_here [] = true
ends_here (c ∷ s) = is_space c

-- The loop: `current` is `value.slice(segmentStart, index)`, and the last argument is what stands
-- from `index` on.
unfoldable pub segments_from : (current : Text) → Text → List Text
unfolding append_narration_segment is_sentence_punctuation is_space
segments_from current [] = append_narration_segment current []
segments_from current (c ∷ s) = elim (is_sentence_punctuation c && ends_here s) [
  | true ↦ append_narration_segment (current ++ c ∷ []) (segments_from [] s)
  | false ↦ segments_from (current ++ c ∷ []) s
]

unfoldable pub segment_narration_line : Text → List Text
unfolding segments_from trim
segment_narration_line line = segments_from [] (trim line)

abbrev pub starts_line_feed : Text → Bool
starts_line_feed [] = false
starts_line_feed (c ∷ s) = c == 10

-- `text.split(/\r?\n/u)`: a carriage return goes when a line feed follows it.
unfoldable pub split_lines : Text → List Text
split_lines [] = [] ∷ []
split_lines (c ∷ s) =
    let rest = split_lines s in
    if c == 10
    then [] ∷ rest
    else if (c == 13) && starts_line_feed s
    then rest
    else first_line c rest

abbrev pub flat_map : {A B : Type 0} → (A → List B) → List A → List B
flat_map f [] = []
flat_map f (x ∷ xs) = f x ++ flat_map f xs

unfoldable pub narration_segments : Text → List Text
unfolding segment_narration_line split_lines
narration_segments text = flat_map segment_narration_line (split_lines text)
