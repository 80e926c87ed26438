-- ===== src/Contracts/Envelope.antt =====
-- packages/contracts/src/event-envelope.ts. An envelope is a typed record here, so the checks of
-- its shape (the keys, the `typeof`s) hold of themselves. `canonical` stands for JavaScript's
-- `Date`: whether a text is the form that `toISOString` gives it back in.
use sttork.Base.{ℕ, Bool, true, false, not, ◌&&◌, Option, none, some, leb, ◌==◌, length}
use sttork.Base.Text.{Text}
use sttork.Contracts.Engine.{max_safe_integer}

-- `invalid` is any other string.
pub data Visibility : Type 0 where
  internal debug accessible invalid : Visibility

pub record EventEnvelope (P : Type 0) : Type 0 where
  pub schema_version : ℕ
  pub id : Text
  pub session_id : Text
  pub sequence : ℕ
  pub occurred_at : Text
  pub type : Text
  pub correlation_id : Text
  pub causation_id : Option Text
  pub visibility : Visibility
  pub payload : P

abbrev pub is_nonempty : Text → Bool
is_nonempty value = not (length value == 0)

-- `undefined`, or a nonempty string
abbrev pub is_optional : Option Text → Bool
is_optional none = true
is_optional (some value) = is_nonempty value

abbrev pub is_visibility : Visibility → Bool
is_visibility Visibility.invalid = false
is_visibility _ = true

unfoldable pub is_event_envelope_v1 : {P : Type 0} → (Text → Bool) → EventEnvelope P → Bool
is_event_envelope_v1 canonical value =
    (value.schema_version == 1)
    && is_nonempty value.id
    && is_nonempty value.session_id
    && leb value.sequence max_safe_integer
    && leb 1 value.sequence
    && canonical value.occurred_at
    && is_nonempty value.type
    && is_nonempty value.correlation_id
    && is_optional value.causation_id
    && is_visibility value.visibility
