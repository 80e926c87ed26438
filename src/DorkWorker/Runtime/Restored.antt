-- ===== src/DorkWorker/Runtime/Restored.antt =====
-- What a restore does: it takes the snapshot's session and receipts over, or leaves the runtime as it
-- was.
pub mod Outcomes
use sttork.Base.{
  ℕ, ◌+◌, ◌≡◌, refl, ap, sym, ◌∙◌, true, false, not, ◌||◌, ◌⊎◌, inl, inr, List, [], ◌∷◌, ◌++◌,
  append_assoc, append-nil, Option, none, some, arith, ◌==◌, if◌then◌else◌,
}
use sttork.Base.Text.{◌===◌}
use sttork.Base.Outcome.{Outcome, ok, err}
use sttork.Async.{ret, throw, put, ask, await, ◌>>=◌, lift, catch, World, run}
use sttork.Async.Told.{
  Told, Told-of_Ensures, Told-mono, Told-bind, Told-state, Told-await, Told-if, Told-lift,
  Told-catch, Told-run, Then, Caught, Says,
}
use sttork.Async.Rules.{
  Ensures, Ensures-state, Ensures-if, Ensures-ret, Ensures-throw, Ensures-lift, Ensures-put,
  Ensures-ask, Ensures-bind, Ensures-mono, Ensures-catch, Next, Handled,
}
use sttork.Async.Keeps.{Every, Leads}
use sttork.Contracts.Engine.{
  Boundary, Boundary-discrete, Compatibility, EngineSnapshot, PublicEngineState, RestoreRejection,
  restored, rejected, corrupt_snapshot, incompatible_snapshot,
}
use sttork.GameEngine.Protocol.{ResponseBody}
use sttork.GameEngine.Checks.{same_compatibility}
use sttork.DorkWorker.Snapshot.Format.{Utf8, WorkerSnapshotReceipt, WorkerSnapshotEnvelope}
use sttork.DorkWorker.Snapshot.Decode.{decode_envelope}
use sttork.DorkWorker.Runtime.State.{
  DorkWorkerRuntime, Call, Reply, RuntimeError, failure, Method, inspect, or_failed,
  dispose_session, restore_session, digest_sha256, disposed_state,
}
use sttork.DorkWorker.Runtime.Receipts.{set, restored_from, validate_restored_receipts}
use sttork.DorkWorker.Runtime.Execute.{must_boot}
use sttork.DorkWorker.Runtime.Operations.{give_up, or_codec}
use sttork.DorkWorker.Runtime.Restore.{
  restore_response, reject_restore, shows, take_over, swap, stage, load, restore_from, restore_in,
  restore_method, check_snapshot,
}
use sttork.DorkWorker.Runtime.Meanwhile.{Meanwhile, nothing, disposes}
use sttork.DorkWorker.Runtime.Sound.{size_of}
use sttork.DorkWorker.Runtime.Journal.{Reads, reads}
use sttork.DorkWorker.Runtime.Restored.Outcomes.{
  IsLeft, IsRestored, taken, refused, booted_first, thrown, validate-receipts, validate-size,
  Meanwhile-IsLeft, codec-ok, shows-same, Ends, then_Ends, IsLeft-of_err, given_up, throws, rejects,
}

or_failed-ok : (o : Option ℕ) (a : ℕ) → or_failed o ≡ ok a → o ≡ some a
unfolding or_failed
or_failed-ok o a h = ground arith

-- A runtime that is not disposed of is the one that the restore began with.
is_same :
    (start s : DorkWorkerRuntime) (epoch : ℕ)
    → (s.disposed || not (s.lifecycle_epoch == epoch)) ≡ false
    → IsLeft start s
    → s ≡ start
is_same start s epoch h (inl e) = e
is_same start s epoch h (inr d) = absurd (ground (arith, h, d))

taken_over :
    (e : WorkerSnapshotEnvelope) (start s : DorkWorkerRuntime) (r : List WorkerSnapshotReceipt × ℕ)
    (session : ℕ)
    → r.0 ≡ e.receipts
    → s ≡ start
    → record s { session = some session; receipts = r.0; receipt_journal_bytes = r.1 }
      ≡ record start { session = some session; receipts = e.receipts; receipt_journal_bytes = r.1 }
taken_over e start s r session j h =
    λ i. record (h i) { session = some session; receipts = j i; receipt_journal_bytes = r.1 }

-- The world gave the session as a reply to the restoration of those bytes.
abbrev pub Gave : World DorkWorkerRuntime Call Reply → List ℕ → ℕ → Type 0
Gave w bytes session = Says w (restore_session bytes) (some session)

module _ (w : World DorkWorkerRuntime Call Reply) (utf8 : Utf8) (candidate : EngineSnapshot)
    (start : DorkWorkerRuntime) where
  abbrev Goes : Method ResponseBody → DorkWorkerRuntime → Type 0
  Goes p s = Told (Says w) Meanwhile (IsRestored (Gave w) utf8 candidate start) p s

  told :
      (p : Method ResponseBody) (s : DorkWorkerRuntime)
      → Ends (Gave w) utf8 candidate start p s
      → Goes p s
  told p s h = Told-of_Ensures (Says w) Meanwhile Every _ p s h

  -- After a part that only reads or waits.
  then_Goes :
      {A : Type 0} (p : Method A) (f : A → Method ResponseBody) (s : DorkWorkerRuntime)
      → Reads p
      → IsLeft start s
      → ((a : A) (s' : DorkWorkerRuntime) → IsLeft start s' → Goes (f a) s')
      → Goes (p >>= f) s
  unfolding Reads Leads
  then_Goes {A} p f s hp left h = Told-bind (Says w) Meanwhile _ p f s (
      Told-mono (Says w) Meanwhile (λ _ s'. IsLeft start s') _ next p s
        (Told-of_Ensures (Says w) Meanwhile Every _ p s
          (hp (IsLeft start) (Meanwhile-IsLeft (Gave w) utf8 candidate start) s left)))
    where
      next :
          (o : Outcome RuntimeError A) (s' : DorkWorkerRuntime)
          → IsLeft start s'
          → Then {R = Reply} (Says w) Meanwhile (IsRestored (Gave w) utf8 candidate start) f o s'
      next (ok a) s' l = h a s' l
      next (err x) s' l = thrown x refl l

  module _ (e : WorkerSnapshotEnvelope) (decodes : decode_envelope utf8 candidate.bytes ≡ ok e)
      (same : e.revision ≡ candidate.revision) (r : List WorkerSnapshotReceipt × ℕ)
      (journal : r.0 ≡ e.receipts) (sized : size_of utf8 r.0 ≡ ok r.1) where
    take_over-Ends :
        (epoch active session : ℕ) (seen : PublicEngineState) (s : DorkWorkerRuntime)
        → Gave w e.inner_checkpoint session
        → not (shows seen e) ≡ false
        → IsLeft start s
        → Ends (Gave w) utf8 candidate start (take_over epoch active seen r session) s
    unfolding take_over
    take_over-Ends epoch active session seen s gave shown l =
        let (revision, boundary) = shows-same seen e shown in
        let body = restore_response restored seen.revision seen.boundary in
        let next = record s {
          session = some session;
          receipts = r.0;
          receipt_journal_bytes = r.1;
        } in
        let answer : body ≡ restore_response restored e.revision e.boundary =
          rw (revision, boundary) refl in
        Ensures-state Every Meanwhile _ _ s (
          Ensures-if Every Meanwhile _ (s.disposed || not (s.lifecycle_epoch == epoch)) _
            (put next (ask (dispose_session active) ret >>= λ _. ret body)) s
            (λ _. throws (Gave w) utf8 candidate start s l)
            (λ alive. Ensures-put Every Meanwhile _ next _ s (
              Ensures-bind Every Meanwhile _ (ask (dispose_session active) ret) _ next (
                Ensures-ask Every Meanwhile _ (dispose_session active) ret next tt (λ _.
                  Ensures-ret Reply Every Meanwhile _ tt next (
                    Ensures-ret Reply Every Meanwhile _ body next (
                      taken e session r.1 decodes same (ap ok answer) gave
                        (ap (size_of utf8) (sym journal) ∙ sized)
                        (taken_over e start s r session journal
                          (is_same start s epoch alive l)))))))))

    swap-Ends :
        (epoch active session : ℕ) (s : DorkWorkerRuntime)
        → Gave w e.inner_checkpoint session
        → IsLeft start s
        → Ends (Gave w) utf8 candidate start (swap epoch active e r session) s
    unfolding swap
    swap-Ends epoch active session s gave l =
        then_Ends (Gave w) utf8 candidate start (inspect session) _ s (search reads depth 10) l
          λ seen s' l'.
            Ensures-if Every Meanwhile _ (not (shows seen e)) _ _ s'
              (λ _. throws (Gave w) utf8 candidate start s' l')
              (λ shown. take_over-Ends epoch active session seen s' gave shown l')

    staged-Goes :
        (epoch active : ℕ) (s : DorkWorkerRuntime)
        → IsLeft start s
        → Goes
            (await (restore_session e.inner_checkpoint) ret >>= λ reply.
              lift (or_failed reply) >>= λ session.
              catch (swap epoch active e r session) (give_up session))
            s
    staged-Goes epoch active s l =
        Told-await (Says w) Meanwhile _ (restore_session e.inner_checkpoint) _ s λ reply s1 says o.
          let l1 = Meanwhile-IsLeft (Gave w) utf8 candidate start s s1 l o in
          Told-lift (Says w) Meanwhile _ (or_failed reply) _ s1
            (λ session given. told _ s1 (
              given_up (Gave w) utf8 candidate start session (swap epoch active e r session) s1 (
                swap-Ends epoch active session s1
                  (says.0, says.1 ∙ or_failed-ok reply session given) l1)))
            (λ x _. thrown x refl l1)

  stage-Goes :
      (active : ℕ) (e : WorkerSnapshotEnvelope) (s : DorkWorkerRuntime)
      → decode_envelope utf8 candidate.bytes ≡ ok e
      → e.revision ≡ candidate.revision
      → IsLeft start s
      → Goes (stage utf8 active e) s
  unfolding stage
  stage-Goes active e s decodes same l = Told-state (Says w) Meanwhile _ _ s (
      Told-lift (Says w) Meanwhile _ (validate_restored_receipts utf8 s e) _ s
        (λ r v.
          staged-Goes e decodes same r (validate-receipts utf8 s e r v) (validate-size utf8 s e r v)
            s.lifecycle_epoch active s l)
        (λ x _. thrown x refl l))

  digested-Goes :
      (active : ℕ) (seen : PublicEngineState) (e : WorkerSnapshotEnvelope) (s : DorkWorkerRuntime)
      → decode_envelope utf8 candidate.bytes ≡ ok e
      → IsLeft start s
      → Goes
          (if not (e.revision == candidate.revision)
            then reject_restore seen corrupt_snapshot
            else stage utf8 active e)
          s
  digested-Goes active seen e s decodes l =
      Told-if (Says w) Meanwhile _ (not (e.revision == candidate.revision)) _ _ s
        (λ _. told _ s (rejects (Gave w) utf8 candidate start seen corrupt_snapshot s l))
        (λ b. stage-Goes active e s decodes (ground (arith, b)) l)

  load-Goes :
      (active : ℕ) (seen : PublicEngineState) (s : DorkWorkerRuntime)
      → IsLeft start s
      → Goes (load utf8 active seen candidate) s
  unfolding load
  load-Goes active seen s l =
      then_Goes (await (digest_sha256 candidate.bytes) ret) _ s (search reads depth 5) l
        λ reply s1 l1.
          then_Goes (lift (or_failed reply)) _ s1 (search reads depth 5) l1 λ digest s2 l2.
            Told-if (Says w) Meanwhile _ (not (digest === candidate.sha256)) _ _ s2
              (λ _. told _ s2 (rejects (Gave w) utf8 candidate start seen corrupt_snapshot s2 l2))
              (λ _.
                Told-lift (Says w) Meanwhile _ (or_codec (decode_envelope utf8 candidate.bytes)) _
                  s2
                  (λ e d.
                    digested-Goes active seen e s2
                      (codec-ok (decode_envelope utf8 candidate.bytes) e d) l2)
                  (λ x _. thrown x refl l2))

  restore_from-Goes :
      (active : ℕ) (compatibility : Compatibility) (seen : PublicEngineState)
      (s : DorkWorkerRuntime)
      → IsLeft start s
      → Goes (restore_from utf8 active compatibility seen candidate) s
  unfolding restore_from
  restore_from-Goes active compatibility seen s l =
      Told-if (Says w) Meanwhile _ (not (same_compatibility candidate.compatibility compatibility))
        _ _ s (λ _. told _ s (rejects (Gave w) utf8 candidate start seen incompatible_snapshot s l))
        (λ _. Told-catch (Says w) Meanwhile _ (load utf8 active seen candidate) _ s (
          Told-mono (Says w) Meanwhile _ _ handled (load utf8 active seen candidate) s
            (load-Goes active seen s l)))
    where
      handled :
          (o : Outcome RuntimeError ResponseBody) (s' : DorkWorkerRuntime)
          → IsRestored (Gave w) utf8 candidate start o s'
          → Caught {R = Reply}
              (Says w)
              Meanwhile
              (IsRestored (Gave w) utf8 candidate start)
              (λ x. reject_restore seen corrupt_snapshot)
              o
              s'
      handled (ok body) s' h = h
      handled (err x) s' h = told _ s' (
          rejects (Gave w) utf8 candidate start seen corrupt_snapshot s'
            (IsLeft-of_err (Gave w) utf8 candidate start x s' h))

  in-Goes :
      (o : Option ℕ) (c : Option Compatibility) (s : DorkWorkerRuntime)
      → IsLeft start s
      → Goes (restore_in utf8 candidate o c) s
  unfolding restore_in check_snapshot
  in-Goes none c s l =
      told _ s (Ensures-ret Reply Every Meanwhile _ must_boot s (booted_first refl l))
  in-Goes (some active) none s l =
      told _ s (Ensures-ret Reply Every Meanwhile _ must_boot s (booted_first refl l))
  in-Goes (some active) (some compatibility) s l =
      then_Goes (inspect active) _ s (search reads depth 10) l λ seen s1 l1.
        then_Goes _ _ s1 (search reads depth 30) l1 λ checked s2 l2.
          Told-if (Says w) Meanwhile _ checked _ _ s2
            (λ _. restore_from-Goes active compatibility seen s2 l2)
            (λ _. told _ s2 (rejects (Gave w) utf8 candidate start seen corrupt_snapshot s2 l2))

-- In a world where nothing but a disposal happens while the method waits, a restore is all or
-- nothing. Either the bytes of the snapshot decode to an envelope of the snapshot's revision, the
-- answer is that envelope's revision and turn boundary, and the runtime is as it was but for three
-- fields: its session is one that the world gave for the envelope's inner checkpoint, its receipts
-- are exactly the envelope's, and the bytes of its journal are the bytes that these take. Or the
-- restore is refused, asks to be booted first or throws, and the runtime is as it was, unless it has
-- been disposed of.
pub restore_method-IsRestored :
    (utf8 : Utf8) (candidate : EngineSnapshot) (s : DorkWorkerRuntime)
    (w : World DorkWorkerRuntime Call Reply) (n : ℕ)
    → ((m : ℕ) (x : DorkWorkerRuntime) → Meanwhile x (w.meanwhile m x))
    → IsRestored
        (Gave w)
        utf8
        candidate
        s
        (run w n s (restore_method utf8 candidate)).outcome
        (run w n s (restore_method utf8 candidate)).final
unfolding restore_method
restore_method-IsRestored utf8 candidate s w n fair =
    Told-run Meanwhile w fair (IsRestored (Gave w) utf8 candidate s) (restore_method utf8 candidate)
      n s
      (Told-state (Says w) Meanwhile _ _ s
        (in-Goes w utf8 candidate s s.session s.compatibility s (inl refl)))
