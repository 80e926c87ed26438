-- ===== src/Session/Records.antt =====
-- `recordCaptureStarted` to `recordResumed`: the events of audio and pauses
-- (packages/session/src/semantic-turn-coordinator.ts).
pub mod Aside
use sttork.Base.{ℕ, Bool, true, false, Option, none, some, leb}
use sttork.Base.Text.{Text}
use sttork.Base.Outcome.{Outcome, ok, err, require}
use sttork.Async.{ret, ◌>>=◌, ◌>>◌, lift}
use sttork.Contracts.Engine.{max_safe_integer}
use sttork.Contracts.Envelope.{accessible}
use sttork.Session.Events.{
  NarrationRole, guide, narrator, CommitState, confirmed, not_submitted, narration, CaptureOutcome,
  PlaybackOutcome, session_paused, session_resumed, audio_capture_started, audio_capture_ended,
  audio_playback_started, audio_playback_ended, system_error, SemanticEvent,
}
use sttork.Session.State.{CoordinatorError, range_error}
use sttork.Session.Turn.{Method, require_id, append_event}

-- `requireId` on a value that may be left out.
unfoldable pub require_optional_id : Option Text → Outcome CoordinatorError (Option Text)
unfolding require_id
require_optional_id none = ok none
require_optional_id (some id) = kept (require_id (some id))
  where
    kept : Outcome CoordinatorError Text → Outcome CoordinatorError (Option Text)
    kept (ok t) = ok (some t)
    kept (err e) = err e

abbrev pub role_commit_state : NarrationRole → CommitState
role_commit_state narrator = confirmed
role_commit_state guide = not_submitted

-- A call of one of the methods below, with its arguments.
pub data Note : Type 0 where
  capture_started : (interaction_id capture_id : Text) → Note
  capture_ended : (interaction_id capture_id : Text) (duration_ms : ℕ) → CaptureOutcome → Note
  playback_started :
      (interaction_id narration_id : Text) → NarrationRole → (source_event_id : Text) → Note
  playback_ended :
      (interaction_id narration_id : Text)
      → NarrationRole
      → (source_event_id : Text) → PlaybackOutcome
      → (failure_code : Option Text) → Note
  paused resumed : (interaction_id : Text) → Note

module _ (canonical : Text → Bool) where
  unfoldable pub record_capture_started : (interaction_id capture_id : Text) → Method SemanticEvent
  unfolding append_event require_id
  record_capture_started interaction_id capture_id = do
    id ← lift (require_id (some capture_id))
    append_event canonical interaction_id none accessible (audio_capture_started id)

  unfoldable pub record_capture_ended :
      (interaction_id capture_id : Text) (duration_ms : ℕ) → CaptureOutcome → Method SemanticEvent
  unfolding append_event require_id
  record_capture_ended interaction_id capture_id duration_ms outcome = do
    lift (require (leb duration_ms max_safe_integer) range_error)
    id ← lift (require_id (some capture_id))
    append_event canonical interaction_id none accessible
        (audio_capture_ended id duration_ms outcome)

  unfoldable pub record_playback_started :
      (interaction_id narration_id : Text)
      → NarrationRole
      → (source_event_id : Text) → Method SemanticEvent
  unfolding append_event require_id
  record_playback_started interaction_id narration_id role source_event_id = do
    id ← lift (require_id (some narration_id))
    source ← lift (require_id (some source_event_id))
    append_event canonical interaction_id (some source_event_id) accessible
        (audio_playback_started id role source)

  -- The event of a playback that failed with a code.
  unfoldable pub playback_failed :
      (interaction_id ended_id : Text)
      → NarrationRole
      → PlaybackOutcome
      → Option Text
      → Method (Unit {0})
  unfolding append_event
  playback_failed interaction_id ended_id role PlaybackOutcome.failed (some code) =
      append_event canonical interaction_id (some ended_id) accessible
        (system_error narration code (role_commit_state role))
      >>= λ _. ret tt
  playback_failed interaction_id ended_id role _ _ = ret tt

  unfoldable pub record_playback_ended :
      (interaction_id narration_id : Text)
      → NarrationRole
      → (source_event_id : Text) → PlaybackOutcome
      → (failure_code : Option Text) → Method SemanticEvent
  unfolding append_event require_id require_optional_id playback_failed
  record_playback_ended interaction_id narration_id role source_event_id outcome failure_code = do
    code ← lift (require_optional_id failure_code)
    id ← lift (require_id (some narration_id))
    ended ←
        append_event canonical interaction_id (some source_event_id) accessible
          (audio_playback_ended id role outcome)
    playback_failed interaction_id ended.id role outcome code
    ret ended

  unfoldable pub record_paused : (interaction_id : Text) → Method SemanticEvent
  unfolding append_event
  record_paused interaction_id =
      append_event canonical interaction_id none accessible session_paused

  unfoldable pub record_resumed : (interaction_id : Text) → Method SemanticEvent
  unfolding append_event
  record_resumed interaction_id =
      append_event canonical interaction_id none accessible session_resumed

  unfoldable pub take_note : Note → Method SemanticEvent
  unfolding record_capture_started record_capture_ended record_playback_started
      record_playback_ended record_paused record_resumed
  take_note (capture_started id capture) = record_capture_started id capture
  take_note (capture_ended id capture ms outcome) = record_capture_ended id capture ms outcome
  take_note (playback_started id narration' role source) =
      record_playback_started id narration' role source
  take_note (playback_ended id narration' role source outcome code) =
      record_playback_ended id narration' role source outcome code
  take_note (paused id) = record_paused id
  take_note (resumed id) = record_resumed id
