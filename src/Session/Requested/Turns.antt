-- ===== src/Session/Requested/Turns.antt =====
-- The parts of a turn that do not execute, and the one that does.
use sttork.Base.{Bool, List, [], ◌∷◌, Option}
use sttork.Base.Text.{Text}
use sttork.Contracts.Envelope.{Visibility}
use sttork.Session.Events.{Payload, NarrationRole}
use sttork.Session.State.{NarrationRequest}
use sttork.Session.Turn.{Method, append_event, emit}
use sttork.Session.Narrate.{
  narration_lost, prepare_segment, prepare_narration_segment, prepare_segments, prepare_all,
  narrate, Prepared, ready, cancelled, failed, if_ready, segments_of,
}
use sttork.Session.Requested.Rules.{quiet, IsQuiet, IsQuiet-ret, IsQuiet-bind}

module _ (canonical : Text → Bool) where
  append_event-IsQuiet :
      (id : Text) (cause : Option Text) (v : Visibility) (payload : Payload)
      → IsQuiet (append_event canonical id cause v payload)
  unfolding append_event
  append_event-IsQuiet id cause v payload = search (quiet, tt) depth 30

  pub emit-IsQuiet :
      (id : Text) (cause : Option Text) (v : Visibility) (payload : Payload)
      → IsQuiet (emit canonical id cause v payload)
  unfolding emit
  emit-IsQuiet id cause v payload = search (quiet, append_event-IsQuiet id cause v payload) depth 30

  narration_lost-IsQuiet :
      (id narration_id : Text) (role : NarrationRole) (requested : Text) (b : Bool)
      → IsQuiet (narration_lost canonical id narration_id role requested b)
  unfolding narration_lost
  narration_lost-IsQuiet id narration_id role requested b =
      search (quiet, emit-IsQuiet, tt) depth 30

  prepare_segment-IsQuiet :
      (request : NarrationRequest) (requested : Text)
      → IsQuiet (prepare_segment canonical request requested)
  unfolding prepare_segment
  prepare_segment-IsQuiet request requested = search (quiet, emit-IsQuiet, tt) depth 30

  prepare_narration_segment-IsQuiet :
      (id : Text) (role : NarrationRole) (text source : Text) (b : Bool)
      → IsQuiet (prepare_narration_segment canonical id role text source b)
  unfolding prepare_narration_segment
  prepare_narration_segment-IsQuiet id role text source b =
      search (quiet, emit-IsQuiet, prepare_segment-IsQuiet, narration_lost-IsQuiet, tt) depth 30

  if_ready-IsQuiet : (o : Prepared) (p : Method Prepared) → IsQuiet p → IsQuiet (if_ready o p)
  if_ready-IsQuiet ready p h = h
  if_ready-IsQuiet cancelled p h = IsQuiet-ret cancelled
  if_ready-IsQuiet failed p h = IsQuiet-ret failed

  prepare_segments-IsQuiet :
      (id : Text) (role : NarrationRole) (texts : List Text) (source : Text) (b : Bool)
      → IsQuiet (prepare_segments canonical id role texts source b)
  unfolding prepare_segments
  prepare_segments-IsQuiet id role [] source b = IsQuiet-ret ready
  prepare_segments-IsQuiet id role (t ∷ ts) source b =
      IsQuiet-bind _ _ (prepare_narration_segment-IsQuiet id role t source b)
        (λ o. if_ready-IsQuiet o _ (prepare_segments-IsQuiet id role ts source b))

  prepare_all-IsQuiet :
      (id : Text) (role : NarrationRole) (texts : List Text) (source : Text) (b : Bool)
      → IsQuiet (prepare_all canonical id role texts source b)
  unfolding prepare_all
  prepare_all-IsQuiet id role [] source b = IsQuiet-ret failed
  prepare_all-IsQuiet id role (t ∷ ts) source b = prepare_segments-IsQuiet id role (t ∷ ts) source b

  pub narrate-IsQuiet :
      (id : Text) (role : NarrationRole) (text source : Text) (b c : Bool)
      → IsQuiet (narrate canonical id role text source b c)
  unfolding narrate
  narrate-IsQuiet id role text source b c =
      prepare_all-IsQuiet id role (segments_of canonical c text) source b
