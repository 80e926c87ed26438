-- ===== src/Contracts/Command/Tests.antt =====
-- The canonicaliser on concrete commands.
use sttork.Base.{◌≡◌, refl, true, ◌↔◌, any}
use sttork.Base.Text.{codes}
use sttork.Base.Outcome.{ok, err}
use sttork.Contracts.Command.{
  string, canonicalize_command, command_separator, empty, has_then, then_letters,
}
use sttork.Contracts.Command.Words.{words, is_word, has_then-words}
use sttork.Contracts.Command.Canonical.{
  IsCanonical, canonicalize_command-IsCanonical, canonicalize_command_iff,
}

canonicalize_command_test :
    canonicalize_command (string (codes "  open   the mailbox ")) ≡ ok (codes "open the mailbox")
unfolding canonicalize_command
canonicalize_command_test = refl

canonicalize_command_then :
    canonicalize_command (string (codes "go north THEN west")) ≡ err command_separator
unfolding canonicalize_command
canonicalize_command_then = refl

canonicalize_command_empty : canonicalize_command (string (codes "  ")) ≡ err empty
unfolding canonicalize_command
canonicalize_command_empty = refl

canonicalize_command-IsCanonical_example : IsCanonical (codes "open the mailbox")
canonicalize_command-IsCanonical_example =
    canonicalize_command-IsCanonical (codes "  open   the mailbox ") (codes "open the mailbox")
      canonicalize_command_test

canonicalize_command_iff_example :
    (canonicalize_command (string (codes "go north")) ≡ ok (codes "go north"))
    ↔ IsCanonical (codes "go north")
canonicalize_command_iff_example = canonicalize_command_iff (codes "go north")

has_then-words_example :
    has_then true (codes "go north THEN west")
    ≡ any (is_word then_letters) (words (codes "go north THEN west"))
has_then-words_example = has_then-words (codes "go north THEN west")
