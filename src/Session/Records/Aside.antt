-- ===== src/Session/Records/Aside.antt =====
-- Recording an event of audio or a pause leaves the turns alone.
use sttork.Base.{
  Bool, ◌≡◌, refl, sym, ap, ◌∙◌, Option, none, some, List, [], ◌∷◌, ◌++◌, append_assoc, append-nil,
}
use sttork.Base.Text.{Text}
use sttork.Base.Outcome.{Outcome, ok, err}
use sttork.Async.{ret, ◌>>=◌, lift}
use sttork.Async.Rules.{Ensures, Next, Ensures-bind, Ensures-mono, Ensures-lift}
use sttork.Contracts.Envelope.{Visibility}
use sttork.Events.Sequence.{EventSequence, admit_draft, append}
use sttork.Session.Events.{
  NarrationRole, PlaybackOutcome, complete, interrupted, failed, Payload, SemanticEvent,
}
use sttork.Session.State.{CoordinatorError, Coordinator, Call, Reply}
use sttork.Session.Turn.{Method, of_event, draft_of, append_event}
use sttork.Session.Records.{
  record_capture_started, record_capture_ended, record_playback_started, playback_failed,
  record_playback_ended, record_paused, record_resumed, Note, capture_started, capture_ended,
  playback_started, playback_ended, paused, resumed, take_note,
}

abbrev pub Anything : Call → Coordinator → Type 0
Anything c s = Unit

abbrev pub Alone : Coordinator → Coordinator → Type 0
Alone s s' = s' ≡ s

abbrev extend : EventSequence → List SemanticEvent → Coordinator → Coordinator
extend q es s = record s { sequence = q; projected = s.projected ++ es }

-- At most the event sequence has moved on, and the projections have been handed further events.
abbrev pub Numbers : {A : Type 0} → Coordinator → Outcome CoordinatorError A → Coordinator → Type 0
Numbers s o s' = (q : EventSequence) × (es : List SemanticEvent) × (s' ≡ extend q es s)

extend-nothing : (s : Coordinator) → s ≡ extend s.sequence [] s
extend-nothing s =
    ap (λ (es : List SemanticEvent). record s { projected = es }) (sym (append-nil s.projected))

extend-extend :
    (s : Coordinator) (q r : EventSequence) (es fs : List SemanticEvent)
    → extend r fs (extend q es s) ≡ extend r (es ++ fs) s
extend-extend s q r es fs =
    ap (λ (l : List SemanticEvent). record s { sequence = r; projected = l })
      (append_assoc s.projected es fs)

unfoldable pub IsAside : {A : Type 0} → Method A → Type 0
IsAside p = (s : Coordinator) → Ensures Anything Alone (Numbers s) p s

module _ {A : Type 0} where
  IsAside-ret : (a : A) → IsAside (ret a)
  unfolding IsAside Ensures
  IsAside-ret a s = (s.sequence, [], extend-nothing s)

  IsAside-lift : (o : Outcome CoordinatorError A) → IsAside (lift o)
  unfolding IsAside Ensures
  IsAside-lift (ok a) s = (s.sequence, [], extend-nothing s)
  IsAside-lift (err e) s = (s.sequence, [], extend-nothing s)

  IsAside-bind :
      {B : Type 0} (p : Method A) (f : A → Method B)
      → IsAside p
      → ((a : A) → IsAside (f a))
      → IsAside (p >>= f)
  unfolding IsAside
  IsAside-bind {B} p f hp hf s =
      Ensures-bind Anything Alone (Numbers s) p f s
        (Ensures-mono Anything Alone (Numbers s) _ passed p s (hp s))
    where
      passed :
          (o : Outcome CoordinatorError A) (s' : Coordinator)
          → Numbers s o s'
          → Next {R = Reply} Anything Alone (Numbers {A = B} s) f o s'
      passed (ok a) s' (q, es, e) =
          Ensures-mono Anything Alone (Numbers s') (Numbers s)
            (λ o t (r, fs, d). (r, es ++ fs, d ∙ ap (extend r fs) e ∙ extend-extend s q r es fs))
            (f a) s' (hf a s')
      passed (err e) s' h = h

ruleset aside = (IsAside-ret, IsAside-lift, IsAside-bind)

module _ (canonical : Text → Bool) where
  append_event-IsAside :
      (id : Text) (cause : Option Text) (v : Visibility) (payload : Payload)
      → IsAside (append_event canonical id cause v payload)
  unfolding append_event IsAside Ensures ◌>>=◌
  append_event-IsAside id cause v payload s =
      Ensures-lift Anything Alone (Numbers s)
        (of_event (admit_draft s.sequence (draft_of payload id cause v))) _ s
        (λ n _. (
          tt,
          λ stamp.
              Ensures-lift Anything Alone (Numbers s)
                (of_event
                  (append canonical s.sequence (draft_of payload id cause v) stamp.0 stamp.1))
                _ s (λ made _. (tt, λ _. (made.1, made.0 ∷ [], refl)))
                (λ _ _. (s.sequence, [], extend-nothing s)),
        ))
        (λ _ _. (s.sequence, [], extend-nothing s))

  playback_failed-IsAside :
      (id ended : Text) (role : NarrationRole) (outcome : PlaybackOutcome) (code : Option Text)
      → IsAside (playback_failed canonical id ended role outcome code)
  unfolding playback_failed
  playback_failed-IsAside id ended role failed (some code) =
      search (aside, append_event-IsAside) depth 10
  playback_failed-IsAside id ended role failed none = IsAside-ret tt
  playback_failed-IsAside id ended role complete code = IsAside-ret tt
  playback_failed-IsAside id ended role interrupted code = IsAside-ret tt

  -- From any state and whatever the callbacks answer, recording an event of audio or a pause, the
  -- failure of a playback included, moves at most the event sequence on and hands further events to
  -- the projections of the observed world and the opening's scene: the journal and its limit, the
  -- claim, the pending opening, the pending intent and the active run's events stay as they are,
  -- whether the method returns or throws.
  pub take_note-IsAside : (n : Note) → IsAside (take_note canonical n)
  unfolding take_note record_capture_started record_capture_ended record_playback_started
      record_playback_ended record_paused record_resumed
  take_note-IsAside (capture_started id capture) = search (aside, append_event-IsAside) depth 20
  take_note-IsAside (capture_ended id capture ms outcome) =
      search (aside, append_event-IsAside) depth 20
  take_note-IsAside (playback_started id narration role source) =
      search (aside, append_event-IsAside) depth 20
  take_note-IsAside (playback_ended id narration role source outcome code) =
      search (aside, append_event-IsAside, playback_failed-IsAside) depth 30
  take_note-IsAside (paused id) = search (append_event-IsAside)
  take_note-IsAside (resumed id) = search (append_event-IsAside)
