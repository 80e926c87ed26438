-- ===== src/DorkWorker/Runtime/Restored/Outcomes.antt =====
-- How a restore may end, and the parts of one that change nothing.
use sttork.Base.{
  ℕ, ◌+◌, ◌≡◌, refl, true, false, not, ◌⊎◌, inr, some, List, [], ◌∷◌, ◌++◌, append_assoc,
  append-nil, arith,
}
use sttork.Base.Outcome.{Outcome, ok, err}
use sttork.Async.{ret, throw, ask, ◌>>=◌, catch}
use sttork.Async.Rules.{
  Ensures, Ensures-ret, Ensures-throw, Ensures-ask, Ensures-bind, Ensures-mono, Ensures-catch, Next,
  Handled,
}
use sttork.Async.Keeps.{Every, Leads}
use sttork.Contracts.Engine.{
  Boundary, Boundary-discrete, EngineSnapshot, PublicEngineState, RestoreRejection, restored,
  rejected,
}
use sttork.GameEngine.Protocol.{ResponseBody}
use sttork.DorkWorker.Snapshot.Format.{Utf8, WorkerSnapshotReceipt, WorkerSnapshotEnvelope}
use sttork.DorkWorker.Snapshot.Decode.{decode_envelope}
use sttork.DorkWorker.Runtime.State.{
  DorkWorkerRuntime, Reply, RuntimeError, failure, Method, dispose_session, disposed_state,
}
use sttork.DorkWorker.Runtime.Receipts.{set, restored_from, validate_restored_receipts}
use sttork.DorkWorker.Runtime.Execute.{must_boot}
use sttork.DorkWorker.Runtime.Operations.{give_up, or_codec}
use sttork.DorkWorker.Runtime.Restore.{restore_response, reject_restore, shows}
use sttork.DorkWorker.Runtime.Meanwhile.{Meanwhile, nothing, disposes}
use sttork.DorkWorker.Runtime.Sound.{set-new, restored_from-parts, restored_from-IsJournal, size_of}
use sttork.DorkWorker.Runtime.Journal.{Reads}

-- The runtime is as it was, or was disposed of.
abbrev pub IsLeft : DorkWorkerRuntime → DorkWorkerRuntime → Type 0
IsLeft start s = (s ≡ start) ⊎ (s.disposed ≡ true)

-- `gave bytes session`: that session was restored from that checkpoint.
pub data IsRestored (gave : List ℕ → ℕ → Type 0) (utf8 : Utf8) (candidate : EngineSnapshot)
    (start : DorkWorkerRuntime)
    : Outcome RuntimeError ResponseBody → DorkWorkerRuntime → Type 0 where
  -- the snapshot's bytes decode to an envelope, of which the session and the receipts, with the
  -- number of their bytes, replace the runtime's own; the rest of the runtime is as it was
  taken :
      {r : Outcome RuntimeError ResponseBody} {s : DorkWorkerRuntime} (e : WorkerSnapshotEnvelope)
      (session size : ℕ)
      → decode_envelope utf8 candidate.bytes ≡ ok e
      → e.revision ≡ candidate.revision
      → r ≡ ok (restore_response restored e.revision e.boundary)
      → gave e.inner_checkpoint session
      → size_of utf8 e.receipts ≡ ok size
      → s ≡ record start {
        session = some session;
        receipts = e.receipts;
        receipt_journal_bytes = size;
      }
      → IsRestored gave utf8 candidate start r s
  refused :
      {r : Outcome RuntimeError ResponseBody} {s : DorkWorkerRuntime} (x : RestoreRejection)
      (revision : ℕ) (boundary : Boundary)
      → r ≡ ok (restore_response (rejected x) revision boundary)
      → IsLeft start s
      → IsRestored gave utf8 candidate start r s
  booted_first :
      {r : Outcome RuntimeError ResponseBody} {s : DorkWorkerRuntime}
      → r ≡ ok must_boot
      → IsLeft start s
      → IsRestored gave utf8 candidate start r s
  thrown :
      {r : Outcome RuntimeError ResponseBody} {s : DorkWorkerRuntime} (x : RuntimeError)
      → r ≡ err x
      → IsLeft start s
      → IsRestored gave utf8 candidate start r s

restored_from-receipts :
    (utf8 : Utf8) (maximum size : ℕ) (rs rest : List WorkerSnapshotReceipt)
    (r : List WorkerSnapshotReceipt × ℕ)
    → restored_from utf8 maximum rs size rest ≡ ok r
    → r.0 ≡ rs ++ rest
unfolding restored_from
restored_from-receipts utf8 maximum size rs [] r h = ground (arith, h, append-nil rs)
restored_from-receipts utf8 maximum size rs (stored ∷ rest) r h =
    let (amount, e, f, small, next) = restored_from-parts utf8 maximum size rs rest stored r h in
    ground (
      arith,
      restored_from-receipts utf8 maximum (size + amount) (set stored rs) rest r next,
      set-new utf8 stored rs f,
      append_assoc rs (stored ∷ []) rest,
    )

pub validate-size :
    (utf8 : Utf8) (s : DorkWorkerRuntime) (e : WorkerSnapshotEnvelope)
    (r : List WorkerSnapshotReceipt × ℕ)
    → validate_restored_receipts utf8 s e ≡ ok r
    → size_of utf8 r.0 ≡ ok r.1
unfolding validate_restored_receipts size_of
validate-size utf8 s e r h =
    (restored_from-IsJournal utf8 s.max_receipt_journal_bytes 0 0 [] e.receipts r
      (record { distinct = tt; sized = refl; few = omega arith; small = omega arith })
      (ground (arith, h))).sized

pub validate-receipts :
    (utf8 : Utf8) (s : DorkWorkerRuntime) (e : WorkerSnapshotEnvelope)
    (r : List WorkerSnapshotReceipt × ℕ)
    → validate_restored_receipts utf8 s e ≡ ok r
    → r.0 ≡ e.receipts
unfolding validate_restored_receipts
validate-receipts utf8 s e r h =
    restored_from-receipts utf8 s.max_receipt_journal_bytes 0 [] e.receipts r (ground (arith, h))

pub codec-ok : {A : Type 0} (o : Outcome _ A) (a : A) → or_codec o ≡ ok a → o ≡ ok a
unfolding or_codec
codec-ok o a h = ground (arith, h)

pub shows-same :
    (seen : PublicEngineState) (e : WorkerSnapshotEnvelope)
    → not (shows seen e) ≡ false
    → (seen.revision ≡ e.revision) × (seen.boundary ≡ e.boundary)
unfolding shows Boundary-discrete
shows-same seen e h = ground (arith, h)

module _ (gave : List ℕ → ℕ → Type 0) (utf8 : Utf8) (candidate : EngineSnapshot)
    (start : DorkWorkerRuntime) where
  abbrev pub Ends : Method ResponseBody → DorkWorkerRuntime → Type 0
  Ends p s = Ensures Every Meanwhile (IsRestored gave utf8 candidate start) p s

  pub Meanwhile-IsLeft :
      (s s' : DorkWorkerRuntime) → IsLeft start s → Meanwhile s s' → IsLeft start s'
  unfolding disposed_state
  Meanwhile-IsLeft s s' h nothing = h
  Meanwhile-IsLeft s s' h (disposes e) = inr (rw e refl)

  -- After a part that only reads or waits.
  pub then_Ends :
      {A : Type 0} (p : Method A) (f : A → Method ResponseBody) (s : DorkWorkerRuntime)
      → Reads p
      → IsLeft start s
      → ((a : A) (s' : DorkWorkerRuntime) → IsLeft start s' → Ends (f a) s')
      → Ends (p >>= f) s
  unfolding Reads Leads
  then_Ends {A} p f s hp left h =
      Ensures-bind Every Meanwhile (IsRestored gave utf8 candidate start) p f s (
        Ensures-mono Every Meanwhile (λ _ s'. IsLeft start s') _ next p s
          (hp (IsLeft start) Meanwhile-IsLeft s left))
    where
      next :
          (o : Outcome RuntimeError A) (s' : DorkWorkerRuntime)
          → IsLeft start s'
          → Next {R = Reply} Every Meanwhile (IsRestored gave utf8 candidate start) f o s'
      next (ok a) s' l = h a s' l
      next (err x) s' l = thrown x refl l

  pub throws : (s : DorkWorkerRuntime) → IsLeft start s → Ends (throw failure) s
  throws s l = Ensures-throw Reply Every Meanwhile _ failure s (thrown failure refl l)

  pub rejects :
      (seen : PublicEngineState) (x : RestoreRejection) (s : DorkWorkerRuntime)
      → IsLeft start s
      → Ends (reject_restore seen x) s
  rejects seen x s l =
      Ensures-ret Reply Every Meanwhile _ _ s (refused x seen.revision seen.boundary refl l)

  pub IsLeft-of_err :
      (x : RuntimeError) (s : DorkWorkerRuntime)
      → IsRestored gave utf8 candidate start (err x) s
      → IsLeft start s
  IsLeft-of_err x s (taken e session size d same a g j t) = absurd (ground (arith, a))
  IsLeft-of_err x s (refused y revision boundary a l) = l
  IsLeft-of_err x s (booted_first a l) = l
  IsLeft-of_err x s (thrown y a l) = l

  -- A session that is given up leaves the runtime as it is.
  pub given_up :
      (session : ℕ) (p : Method ResponseBody) (s : DorkWorkerRuntime)
      → Ends p s
      → Ends (catch p (give_up session)) s
  unfolding give_up
  given_up session p s h =
      Ensures-catch Every Meanwhile _ p _ s (Ensures-mono Every Meanwhile _ _ handled p s h)
    where
      handled :
          (o : Outcome RuntimeError ResponseBody) (s' : DorkWorkerRuntime)
          → IsRestored gave utf8 candidate start o s'
          → Handled {R = Reply} Every Meanwhile
              (IsRestored gave utf8 candidate start)
              (give_up session)
              o
              s'
      handled (ok body) s' i = i
      handled (err x) s' i =
          Ensures-bind Every Meanwhile _ (ask (dispose_session session) ret) _ s' (
            Ensures-ask Every Meanwhile _ (dispose_session session) ret s' tt (λ _.
              Ensures-ret Reply Every Meanwhile _ tt s' (
                Ensures-throw Reply Every Meanwhile _ x s' (thrown x refl (IsLeft-of_err x s' i)))))
