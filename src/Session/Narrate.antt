-- ===== src/Session/Narrate.antt =====
-- `#narrate` and `#prepareNarrationSegment`
-- (packages/session/src/semantic-turn-coordinator.ts). The signal's flag is read by the call `aborted`;
-- `awaitWithAbort` and the narrator together are the call `prepare`.
use sttork.Base.{Bool, true, false, some, List, [], ◌∷◌, ◌==◌, if◌then◌else◌, length}
use sttork.Base.Text.{Text, codes, trim}
use sttork.Async.{ret, throw, ask, await, ◌>>=◌, ◌>>◌, catch, lift}
use sttork.Contracts.Envelope.{debug, accessible}
use sttork.Session.Segments.{narration_segments}
use sttork.Session.Events.{
  NarrationRole, CommitState, not_submitted, confirmed, narration, narration_requested,
  narration_ready, narration_cancelled, narration_failed, system_error,
}
use sttork.Session.State.{rethrown, NarrationRequest, next_narration_id, prepare}
use sttork.Session.Turn.{Method, require_id, is_aborted, emit, note}

pub data Prepared : Type 0 where
  ready cancelled failed : Prepared

abbrev pub commit_state : Bool → CommitState
commit_state true = confirmed
commit_state false = not_submitted

-- `if (outcome !== "ready") return outcome`
abbrev pub if_ready : Prepared → Method Prepared → Method Prepared
if_ready ready next = next
if_ready outcome next = ret outcome

module _ (canonical : Text → Bool) where
  -- The `catch` of `#prepareNarrationSegment`.
  unfoldable pub narration_lost :
      (interaction_id narration_id : Text)
      → NarrationRole
      → (requested_id : Text) → (commit_confirmed : Bool) → Method Prepared
  unfolding emit
  narration_lost interaction_id narration_id role requested_id commit_confirmed = do
    stop ← is_aborted
    if stop
        then note canonical interaction_id (some requested_id) accessible
            (narration_cancelled narration_id role)
          >> ret cancelled
        else (emit canonical interaction_id (some requested_id) accessible
              (narration_failed narration_id role)
            >>= λ lost.
                note canonical interaction_id (some lost.id) accessible (
                  system_error narration (codes "narration-failed") (commit_state commit_confirmed))
                >> ret failed)

  -- The `try` of `#prepareNarrationSegment`.
  unfoldable pub prepare_segment : NarrationRequest → (requested_id : Text) → Method Prepared
  unfolding emit
  prepare_segment request requested_id = do
    done ← await (prepare request) ret
    if done
        then note canonical request.correlation_id (some requested_id) debug
            (narration_ready request.narration_id request.role)
          >> ret ready
        else throw rethrown

  unfoldable pub prepare_narration_segment :
      (interaction_id : Text)
      → NarrationRole
      → (text source_event_id : Text) → (commit_confirmed : Bool) → Method Prepared
  unfolding emit require_id narration_lost prepare_segment
  prepare_narration_segment interaction_id role text source_event_id commit_confirmed = do
    reply ← ask next_narration_id ret
    narration_id ← lift (require_id reply)
    requested ←
        emit canonical interaction_id (some source_event_id) debug
          (narration_requested narration_id role text source_event_id)
    catch
        (prepare_segment
          (record {
            narration_id = narration_id;
            role = role;
            text = text;
            source_event_id = source_event_id;
            correlation_id = interaction_id;
          })
          requested.id)
        (λ e. narration_lost interaction_id narration_id role requested.id commit_confirmed)

  -- The loop over the segments; it stops at the first that is not ready.
  unfoldable pub prepare_segments :
      (interaction_id : Text)
      → NarrationRole
      → List Text
      → (source_event_id : Text) → (commit_confirmed : Bool) → Method Prepared
  unfolding prepare_narration_segment
  prepare_segments interaction_id role [] source_event_id confirmed' = ret ready
  prepare_segments interaction_id role (segment ∷ rest) source_event_id confirmed' = do
    outcome ← prepare_narration_segment interaction_id role segment source_event_id confirmed'
    if_ready outcome (prepare_segments interaction_id role rest source_event_id confirmed')

  unfoldable pub prepare_all :
      (interaction_id : Text)
      → NarrationRole
      → List Text
      → (source_event_id : Text) → (commit_confirmed : Bool) → Method Prepared
  unfolding prepare_segments
  prepare_all interaction_id role [] source_event_id commit_confirmed = ret failed
  prepare_all interaction_id role (s ∷ ss) source_event_id commit_confirmed =
      prepare_segments interaction_id role (s ∷ ss) source_event_id commit_confirmed

  abbrev pub segments_of : (segment_sentences : Bool) → Text → List Text
  segments_of true text = narration_segments text
  segments_of false text = if length (trim text) == 0 then [] else text ∷ []

  -- `if (segments.length === 0) return "failed"`, then the loop.
  unfoldable pub narrate :
      (interaction_id : Text)
      → NarrationRole
      → (text source_event_id : Text) → (commit_confirmed segment_sentences : Bool)
      → Method Prepared
  unfolding prepare_all narration_segments trim
  narrate interaction_id role text source_event_id commit_confirmed segment_sentences =
      prepare_all interaction_id role (segments_of segment_sentences text) source_event_id
        commit_confirmed
