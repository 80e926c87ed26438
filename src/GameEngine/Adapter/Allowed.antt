-- ===== src/GameEngine/Adapter/Allowed.antt =====
-- Which messages an adapter may still send when the outcome of an earlier one is not known.
use sttork.Base.{ℕ, ◌≡◌, refl, ◌⊎◌, inl, inr, Option, none, some, arith, Bool}
use sttork.Base.Outcome.{ok}
use sttork.Contracts.Engine.{Boundary, Compatibility, BootRequest, ExecuteRequest}
use sttork.GameEngine.Protocol.{RequestBody}
use sttork.GameEngine.Adapter.State.{
  Recovery, ready, boot_quarantined, execute_uncertain, restore_quarantined, Adapter, Call,
  next_message_id, exchange, digest_sha256,
}
use sttork.GameEngine.Adapter.Guards.{
  admit_boot, admit_execute, admit_snapshot, admit_restore, admit_inspect,
}

-- What may be sent in each recovery state.
abbrev pub Allowed : Recovery → RequestBody → Type 0
Allowed ready body = Unit
Allowed (boot_quarantined _) body = ⊥
Allowed (execute_uncertain id revision command) body =
    (body ≡ RequestBody.inspect_public_state)
    ⊎ (body
        ≡ RequestBody.execute
            (record { request_id = id; expected_revision = revision; command = command }))
Allowed (restore_quarantined _) body = body ≡ RequestBody.inspect_public_state

abbrev pub MaySend : Recovery → Call → Adapter → Type 0
MaySend recovery next_message_id s = Unit
MaySend recovery (exchange m) s = Allowed recovery m.body
MaySend recovery (digest_sha256 _) s = Unit

-- A quarantined boot leaves the engine unknown; an uncertain execute or restore had a known one.
abbrev pub IsConsistent : Recovery → Option Compatibility → Option ℕ → Type 0
IsConsistent ready c r = Unit
IsConsistent (boot_quarantined _) c r = r ≡ none
IsConsistent _ c r = (x : Compatibility) × (c ≡ some x)

pub boot-Allowed :
    (s : Adapter) (recovery : Recovery) (input : BootRequest)
    → s.recovery ≡ recovery
    → IsConsistent recovery s.compatibility s.revision
    → admit_boot s input ≡ ok tt
    → Allowed recovery (RequestBody.boot input)
unfolding admit_boot
boot-Allowed s ready input e k h = tt
boot-Allowed s (boot_quarantined _) input e k h = ground arith
boot-Allowed s (execute_uncertain _ _ _) input e (c, known) h = absurd (ground arith)
boot-Allowed s (restore_quarantined _) input e (c, known) h = absurd (ground arith)

pub execute-Allowed :
    (s : Adapter) (recovery : Recovery) (input : ExecuteRequest) (aborted : Bool) (g : ℕ × Boundary)
    → s.recovery ≡ recovery
    → IsConsistent recovery s.compatibility s.revision
    → admit_execute s input aborted ≡ ok g
    → Allowed recovery (RequestBody.execute input)
unfolding admit_execute
execute-Allowed s ready input aborted g e k h = tt
execute-Allowed s (boot_quarantined _) input aborted g e k h = ground arith
execute-Allowed s (execute_uncertain _ _ _) input aborted g e k h = inr (ground arith)
execute-Allowed s (restore_quarantined _) input aborted g e k h = absurd (ground arith)

pub snapshot-Allowed :
    (s : Adapter) (recovery : Recovery) (g : ℕ × Compatibility) (body : RequestBody)
    → s.recovery ≡ recovery
    → IsConsistent recovery s.compatibility s.revision
    → admit_snapshot s ≡ ok g
    → Allowed recovery body
unfolding admit_snapshot
snapshot-Allowed s ready g body e k h = tt
snapshot-Allowed s (boot_quarantined _) g body e k h = ground arith
snapshot-Allowed s (execute_uncertain _ _ _) g body e k h = absurd (ground arith)
snapshot-Allowed s (restore_quarantined _) g body e k h = absurd (ground arith)

pub restore-Allowed :
    (s : Adapter) (recovery : Recovery) (g : ℕ × Boundary × Compatibility) (body : RequestBody)
    → s.recovery ≡ recovery
    → IsConsistent recovery s.compatibility s.revision
    → admit_restore s ≡ ok g
    → Allowed recovery body
unfolding admit_restore
restore-Allowed s ready g body e k h = tt
restore-Allowed s (boot_quarantined _) g body e k h = ground arith
restore-Allowed s (execute_uncertain _ _ _) g body e k h = absurd (ground arith)
restore-Allowed s (restore_quarantined _) g body e k h = absurd (ground arith)

pub inspect-Allowed :
    (s : Adapter) (recovery : Recovery) (g : ℕ × Boundary)
    → s.recovery ≡ recovery
    → IsConsistent recovery s.compatibility s.revision
    → admit_inspect s ≡ ok g
    → Allowed recovery RequestBody.inspect_public_state
unfolding admit_inspect
inspect-Allowed s ready g e k h = tt
inspect-Allowed s (boot_quarantined _) g e k h = ground arith
inspect-Allowed s (execute_uncertain _ _ _) g e k h = inl refl
inspect-Allowed s (restore_quarantined _) g e k h = refl
