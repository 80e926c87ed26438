-- ===== src/Contracts/Command.antt =====
-- packages/contracts/src/canonical-command.ts.
pub mod Blanks
pub mod Words
pub mod Canonical
mod Tests
use sttork.Base.{
  ℕ, Bool, true, false, ◌&&◌, ◌||◌, List, [], ◌∷◌, ltb, ◌==◌, if◌then◌else◌, any, length,
}
use sttork.Base.Text.{Text, has_control, is_control, is_space, trim}
use sttork.Base.Outcome.{Outcome, ok, err, ◌>>◌, throw_if}

-- A value of type `unknown`, told apart by `typeof input === "string"`.
pub data Unknown : Type 0 where
  string : Text → Unknown
  other : Unknown

pub data CommandError : Type 0 where
  not_a_string empty too_long control_character command_separator : CommandError

abbrev pub max_canonical_command_length : ℕ
max_canonical_command_length = 160

-- `[\t ]`
unfoldable pub is_blank : ℕ → Bool
is_blank c = (c == 9) || (c == 32)

-- `.replace(/[\t ]+/gu, " ")`; `in_run` says that the last unit was a blank.
unfoldable pub replace_blanks : Bool → Text → Text
replace_blanks in_run [] = []
replace_blanks in_run (c ∷ s) =
    let rest = replace_blanks (is_blank c) s in
    if is_blank c then (if in_run then rest else 32 ∷ rest) else c ∷ rest

-- `[.;]`
unfoldable pub is_separator : ℕ → Bool
is_separator c = (c == b'.') || (c == b';')

-- One letter under the flag `i`.
abbrev pub letter : ℕ × ℕ → ℕ → Bool
letter (upper, lower) c = (c == upper) || (c == lower)

-- `(?:\s|$)`
unfoldable pub at_end : Text → Bool
at_end [] = true
at_end (c ∷ s) = is_space c

-- The letters of a word, each in upper and lower case.
abbrev pub then_letters : List (ℕ × ℕ)
then_letters = (b'T', b't') ∷ (b'H', b'h') ∷ (b'E', b'e') ∷ (b'N', b'n') ∷ []

-- The letters, then `(?:\s|$)`, at the head of a text.
unfoldable pub word_here : List (ℕ × ℕ) → Text → Bool
unfolding at_end
word_here [] s = at_end s
word_here (l ∷ ls) [] = false
word_here (l ∷ ls) (c ∷ s) = letter l c && word_here ls s

-- `/(?:^|\s)then(?:\s|$)/iu.test(s)`; `boundary` says that the start or a space is just before.
unfoldable pub has_then : Bool → Text → Bool
unfolding word_here
has_then boundary [] = false
has_then boundary (c ∷ s) = (boundary && word_here then_letters (c ∷ s)) || has_then (is_space c) s

-- The checks on the normalised text.
unfoldable pub check_normalized : Text → Outcome CommandError Text
unfolding is_separator has_then
check_normalized normalized = do
  throw_if (length normalized == 0) empty
  throw_if (ltb max_canonical_command_length (length normalized)) too_long
  throw_if (any is_separator normalized || has_then true normalized) command_separator
  ok normalized

unfoldable pub canonicalize_command : Unknown → Outcome CommandError Text
unfolding check_normalized replace_blanks is_blank trim is_control
canonicalize_command other = err not_a_string
canonicalize_command (string input) = do
  throw_if (has_control input) control_character
  check_normalized (replace_blanks false (trim input))
