-- ===== src/Session/Events.antt =====
-- The semantic events of a session (packages/contracts/src/semantic-events.ts), the guide's decisions
-- (packages/contracts/src/guide-decision.ts) and its results (packages/guide-core/src/initial-guide.ts).
-- A payload's constant fields (`retention`, `recoverable`, ...) are left out.
use sttork.Base.{ℕ, Option, List}
use sttork.Base.Text.{Text, codes}
use sttork.Contracts.Engine.{Boundary, ExecuteRequest, Rejection}
use sttork.Contracts.Envelope.{EventEnvelope}

-- A number of the player's input: `ratio m k` is m / 2^k, as every finite double not below zero is.
pub data Number : Type 0 where
  not_finite negative : Number
  ratio : ℕ → ℕ → Number

pub data NarrationRole : Type 0 where
  guide narrator : NarrationRole

pub data CannotComplyReason : Type 0 where
  not_observed unsupported unsafe provider_limitation : CannotComplyReason

pub record CannotComply : Type 0 where
  pub response : Text
  pub reason : CannotComplyReason

pub record ExecuteDecision : Type 0 where
  pub command : Text
  pub intent_summary : Text
  pub expected_effect : Option Text
  pub confidence : Number
  pub acknowledgement : Option Text
  pub remaining_goal : Option Text

pub record ClarifyDecision : Type 0 where
  pub question : Text
  pub choices : Option (List Text)
  pub ambiguity : Text

pub data ExplainBasis : Type 0 where
  command_help observed_memory game_explanation : ExplainBasis

pub record ExplainDecision : Type 0 where
  pub response : Text
  pub basis : ExplainBasis
  pub source_ids : List Text

pub data MetaControl : Type 0 where
  stop_speaking repeat_last pause_session resume_session speech_slower speech_faster show_transcript
        hide_transcript :
      MetaControl

pub data GuideDecision : Type 0 where
  request_hint : (puzzle_context : Text) (requested_level : ℕ) → GuideDecision
  session_control : MetaControl → GuideDecision
  execute : ExecuteDecision → GuideDecision
  clarify : ClarifyDecision → GuideDecision
  explain : ExplainDecision → GuideDecision
  cannot_comply : CannotComply → GuideDecision

-- `PendingOpeningObjectAction`
pub data ObjectAction : Type 0 where
  examine open_object read take : ObjectAction

unfoldable pub ObjectAction-discrete : Discrete ObjectAction
ObjectAction-discrete = hlevel

-- `PendingOpeningObjectIntent`; the two actions of the last are always "examine" and "read".
pub data PendingIntent : Type 0 where
  action : ObjectAction → PendingIntent
  content_object : PendingIntent
  contextual_choice : (object_value_id : Text) (first second : ObjectAction) → PendingIntent
  read_examine_choice : (object_value_id : Text) → PendingIntent

pub data RejectionCause : Type 0 where
  malformed_provider_decision unsupported_initial_decision ungrounded_command invalid_context
        provider_failure :
      RejectionCause

-- `InitialGuideResult`
pub data GuideResult : Type 0 where
  execute : (command : Text) → ExecuteDecision → (grounding_source_id : Text) → GuideResult
  clarify : ClarifyDecision → Option PendingIntent → GuideResult
  explain : ExplainDecision → GuideResult
  rejected : CannotComply → RejectionCause → GuideResult
  provider_failure : CannotComply → GuideResult

pub data AcceptedKind : Type 0 where
  execute clarify explain : AcceptedKind

pub data ErrorStage : Type 0 where
  audio transcription guide engine checkpoint narration coordinator : ErrorStage

pub data CommitState : Type 0 where
  not_submitted confirmed unknown : CommitState

pub data CaptureOutcome : Type 0 where
  submitted cancelled silence failed : CaptureOutcome

pub data PlaybackOutcome : Type 0 where
  complete interrupted failed : PlaybackOutcome

-- `SemanticEventPayloads`
pub data Payload : Type 0 where
  session_paused session_resumed : Payload
  audio_capture_started : (capture_id : Text) → Payload
  audio_capture_ended : (capture_id : Text) (duration_ms : ℕ) → CaptureOutcome → Payload
  audio_playback_started :
      (narration_id : Text) → NarrationRole → (source_event_id : Text) → Payload
  audio_playback_ended : (narration_id : Text) → NarrationRole → PlaybackOutcome → Payload
  experience_role_introduction : NarrationRole → (text : Text) (position total : ℕ) → Payload
  transcript_final : Text → Option Number → Payload
  guide_decision_proposed : GuideDecision → Payload
  guide_decision_accepted : AcceptedKind → Payload
  guide_decision_rejected : RejectionCause → CannotComply → Payload
  guide_clarification : ClarifyDecision → Payload
  guide_explanation : (response : Text) (source_ids : List Text) → Payload
  guide_cannot_comply : CannotComply → Payload
  engine_command_requested : ExecuteRequest → Payload
  engine_command_committed :
      (request_id : Text) (previous_revision revision : ℕ) (command : Text) → Boundary → Payload
  engine_command_rejected :
      (request_id : Text) (revision : ℕ) (command : Text) → Rejection → Payload
  engine_output : (revision : ℕ) (exact_text : Text) → Boundary → Payload
  narration_requested :
      (narration_id : Text) → NarrationRole → (text source_event_id : Text) → Payload
  narration_ready narration_cancelled narration_failed :
      (narration_id : Text) → NarrationRole → Payload
  save_checkpointed : (revision : ℕ) (sha256 : Text) (byte_length : ℕ) → Payload
  save_failed : (revision : ℕ) → Payload
  system_error : ErrorStage → (code : Text) → CommitState → Payload
  system_recovered : (request_id : Text) (revision : ℕ) → Payload

-- The event's `type`.
abbrev pub type_of : Payload → Text
type_of session_paused = codes "session.paused"
type_of session_resumed = codes "session.resumed"
type_of (audio_capture_started id) = codes "audio.capture.started"
type_of (audio_capture_ended id ms outcome) = codes "audio.capture.ended"
type_of (audio_playback_started id role source) = codes "audio.playback.started"
type_of (audio_playback_ended id role outcome) = codes "audio.playback.ended"
type_of (experience_role_introduction role text k n) = codes "experience.role-introduction"
type_of (transcript_final text confidence) = codes "transcript.final"
type_of (guide_decision_proposed decision) = codes "guide.decision.proposed"
type_of (guide_decision_accepted kind) = codes "guide.decision.accepted"
type_of (guide_decision_rejected cause decision) = codes "guide.decision.rejected"
type_of (guide_clarification decision) = codes "guide.clarification"
type_of (guide_explanation response source_ids) = codes "guide.explanation"
type_of (guide_cannot_comply decision) = codes "guide.cannot_comply"
type_of (engine_command_requested request) = codes "engine.command.requested"
type_of (engine_command_committed id p r c b) = codes "engine.command.committed"
type_of (engine_command_rejected id r c reason) = codes "engine.command.rejected"
type_of (engine_output revision exact_text b) = codes "engine.output"
type_of (narration_requested id role text source) = codes "narration.requested"
type_of (narration_ready id role) = codes "narration.ready"
type_of (narration_cancelled id role) = codes "narration.cancelled"
type_of (narration_failed id role) = codes "narration.failed"
type_of (save_checkpointed revision sha256 n) = codes "save.checkpointed"
type_of (save_failed revision) = codes "save.failed"
type_of (system_error stage code state) = codes "system.error"
type_of (system_recovered id revision) = codes "system.recovered"

abbrev pub SemanticEvent : Type 0
SemanticEvent = EventEnvelope Payload
