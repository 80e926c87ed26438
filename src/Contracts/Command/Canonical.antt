-- ===== src/Contracts/Command/Canonical.antt =====
-- Which commands are canonical, and that the canonicaliser decides it.
use sttork.Base.{◌≤◌, ◌≡◌, sym, ◌∙◌, ◌↔◌, true, false, arith, any, length, Bool-cases, inl, inr}
use sttork.Base.Text.{Text, has_control, trim, trim_start}
use sttork.Base.Outcome.{ok}
use sttork.Contracts.Command.{
  string, then_letters, is_separator, replace_blanks, has_then, check_normalized,
  canonicalize_command,
}
use sttork.Contracts.Command.Words.{words, is_word, has_then-words}
use sttork.Contracts.Command.Blanks.{
  starts_solid, ends_solid, single_blanks, trim_start-starts, trim_end-starts, trim_end-ends,
  trim_start-control, trim_end-control, replace-control, replace-starts, replace-ends,
  replace-single, replace-fixed, trim_start-fixed, trim_end-fixed,
}

-- One parser action, in one spelling of its white space.
pub record IsCanonical (t : Text) : Type 0 where
  pub nonempty : 1 ≤ length t
  pub bounded : length t ≤ 160
  pub no_control : has_control t ≡ false
  pub starts : starts_solid t ≡ true
  pub ends : ends_solid t ≡ true
  pub blanks : single_blanks false t ≡ true
  pub no_separator : any is_separator t ≡ false
  pub no_then : any (is_word then_letters) (words t) ≡ false

check-ok :
    (n t : Text)
    → check_normalized n ≡ ok t
    → (t ≡ n)
      × (1 ≤ length n)
      × (length n ≤ 160)
      × (any is_separator n ≡ false)
      × (has_then true n ≡ false)
unfolding check_normalized
check-ok n t h = ground arith

-- Every command that the canonicaliser returns has one to 160 units and no control, starts and
-- ends with no white space, has single blanks only, no separator sign and no word "then".
pub canonicalize_command-IsCanonical :
    (s t : Text) → canonicalize_command (string s) ≡ ok t → IsCanonical t
unfolding canonicalize_command trim
canonicalize_command-IsCanonical s t h = elim (Bool-cases (has_control s)) [
  | inl c ↦ ground arith
  | inr c ↦
      let (same, low, high, dots, plain) =
        check-ok (replace_blanks false (trim s)) t (ground arith) in
      rw same (record {
        nonempty = low;
        bounded = high;
        no_control =
            replace-control false (trim s)
              (trim_end-control (trim_start s) (trim_start-control s c));
        starts = replace-starts (trim s) (trim_end-starts (trim_start s) (trim_start-starts s));
        ends = replace-ends false (trim s) (trim_end-ends (trim_start s));
        blanks = replace-single false (trim s);
        no_separator = dots;
        no_then = sym (has_then-words (replace_blanks false (trim s))) ∙ plain;
      })
]

normal-fixed : (t : Text) → IsCanonical t → replace_blanks false (trim t) ≡ t
unfolding trim
normal-fixed t h =
    rw (trim_start-fixed t h.starts, trim_end-fixed t h.ends)
      (replace-fixed false t h.no_control h.blanks)

check-fixed : (t : Text) → IsCanonical t → check_normalized t ≡ ok t
unfolding check_normalized
check-fixed t h = ground (arith, has_then-words t)

canonical-fixed : (t : Text) → IsCanonical t → canonicalize_command (string t) ≡ ok t
unfolding canonicalize_command
canonical-fixed t h = rw (h.no_control, normal-fixed t h) (check-fixed t h)

-- A text is its own canonical form exactly when it is canonical in that sense: one to 160 units,
-- no control, trimmed, single blanks only, no separator sign and no word "then".
pub canonicalize_command_iff : (t : Text) → (canonicalize_command (string t) ≡ ok t) ↔ IsCanonical t
canonicalize_command_iff t = (canonicalize_command-IsCanonical t t, canonical-fixed t)
