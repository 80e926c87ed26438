-- ===== src/DorkWorker/Runtime/Saved.antt =====
-- A snapshot that the runtime gives holds its receipts.
use sttork.Base.{
  ℕ, ◌≡◌, refl, Bool, true, ◌⊎◌, inl, inr, List, Option, none, some, arith, if◌then◌else◌,
}
use sttork.Base.Outcome.{Outcome, ok, err, Outcome-cases}
use sttork.Async.{ret, throw, await, ◌>>=◌, lift}
use sttork.Async.Rules.{
  Ensures, Ensures-state, Ensures-if, Ensures-ret, Ensures-throw, Ensures-lift, Ensures-await,
  Ensures-after,
}
use sttork.Contracts.Engine.{Compatibility, EngineSnapshot, PublicEngineState}
use sttork.GameEngine.Protocol.{ResponseBody, snapshot_result}
use sttork.DorkWorker.Snapshot.Format.{
  Utf8, IsUtf8, WorkerSnapshotEnvelope, worker_snapshot_schema_version,
}
use sttork.DorkWorker.Snapshot.Encode.{encode_envelope}
use sttork.DorkWorker.Snapshot.Decode.{decode_envelope}
use sttork.DorkWorker.Snapshot.RoundTrip.Envelope.{decode-encode}
use sttork.DorkWorker.Runtime.State.{
  DorkWorkerRuntime, Reply, RuntimeError, failure, Method, or_failed, digest_sha256, disposed_state,
}
use sttork.DorkWorker.Runtime.Operations.{save, snapshot_in, snapshot_method, or_codec}
use sttork.DorkWorker.Runtime.Execute.{must_boot}
use sttork.DorkWorker.Runtime.Meanwhile.{Meanwhile, nothing, disposes, Anything}

-- The snapshot, if there is one, can be decoded, and its receipts are those of the runtime, unless
-- that was disposed of before the digest came.
pub data IsSaved (utf8 : Utf8)
    : Outcome RuntimeError ResponseBody → DorkWorkerRuntime → Type 0 where
  saved :
      {r : Outcome RuntimeError ResponseBody} {s : DorkWorkerRuntime} (snapshot : EngineSnapshot)
      (e : WorkerSnapshotEnvelope)
      → r ≡ ok (snapshot_result snapshot)
      → decode_envelope utf8 snapshot.bytes ≡ ok e
      → e.revision ≡ snapshot.revision
      → (e.receipts ≡ s.receipts) ⊎ (s.disposed ≡ true)
      → IsSaved utf8 r s
  booted_first :
      {r : Outcome RuntimeError ResponseBody} {s : DorkWorkerRuntime}
      → r ≡ ok must_boot
      → IsSaved utf8 r s
  thrown :
      {r : Outcome RuntimeError ResponseBody} {s : DorkWorkerRuntime} (x : RuntimeError)
      → r ≡ err x
      → IsSaved utf8 r s

abbrev envelope_of : PublicEngineState → List ℕ → DorkWorkerRuntime → WorkerSnapshotEnvelope
envelope_of seen checkpoint now = record {
  schema_version = worker_snapshot_schema_version;
  revision = seen.revision;
  last_output = seen.last_output;
  boundary = seen.boundary;
  inner_checkpoint = checkpoint;
  receipts = now.receipts;
}

module _ (utf8 : Utf8) (laws : IsUtf8 utf8) where
  abbrev Saves : Method ResponseBody → DorkWorkerRuntime → Type 0
  Saves p s = Ensures Anything Meanwhile (IsSaved utf8) p s

  kept :
      (e : WorkerSnapshotEnvelope) (s s' : DorkWorkerRuntime)
      → e.receipts ≡ s.receipts
      → Meanwhile s s'
      → (e.receipts ≡ s'.receipts) ⊎ (s'.disposed ≡ true)
  unfolding disposed_state
  kept e s s' h nothing = inl h
  kept e s s' h (disposes d) = inr (rw d refl)

  decoded :
      (e : WorkerSnapshotEnvelope) (bytes : List ℕ)
      → or_codec (encode_envelope utf8 e) ≡ ok bytes
      → decode_envelope utf8 bytes ≡ ok e
  unfolding or_codec
  decoded e bytes h = elim (Outcome-cases (encode_envelope utf8 e)) [
    | inl (bs, d) ↦ decode-encode utf8 e bytes laws (ground (arith, d, h))
    | inr (x, d) ↦ ground (arith, d, h)
  ]

  sealed :
      (e : WorkerSnapshotEnvelope) (compatibility : Compatibility) (bytes : List ℕ)
      (s : DorkWorkerRuntime)
      → or_codec (encode_envelope utf8 e) ≡ ok bytes
      → e.receipts ≡ s.receipts
      → Saves
          (await (digest_sha256 bytes) ret >>= λ digested. lift (or_failed digested) >>= λ digest.
            ret (
              snapshot_result (record {
                bytes = bytes;
                sha256 = digest;
                revision = e.revision;
                compatibility = compatibility;
              })))
          s
  unfolding ◌>>=◌
  sealed e compatibility bytes s h same =
      Ensures-await Anything Meanwhile _ (digest_sha256 bytes) _ s tt λ digested s' o.
        Ensures-lift Anything Meanwhile _ (or_failed digested) _ s'
          (λ digest _.
            Ensures-ret Reply Anything Meanwhile _ _ s'
              (saved _ e refl (decoded e bytes h) refl (kept e s s' same o)))
          (λ x _. thrown x refl)

  sealed_or_failed :
      (test : Bool) (p : Method ResponseBody) (s : DorkWorkerRuntime)
      → Saves p s
      → Saves (if test then throw failure else p) s
  sealed_or_failed test p s h =
      Ensures-if Anything Meanwhile _ test _ p s
        (λ _. Ensures-throw Reply Anything Meanwhile _ failure s (thrown failure refl)) (λ _. h)

  save-IsSaved :
      (session : ℕ) (compatibility : Compatibility) (s : DorkWorkerRuntime)
      → Saves (save utf8 session compatibility) s
  unfolding save
  save-IsSaved session compatibility s =
      Ensures-after Anything Meanwhile _ (λ _ _. tt) (λ x _. thrown x refl) _ _ s
        λ reply s1.
          Ensures-after Anything Meanwhile _ (λ _ _. tt) (λ x _. thrown x refl) _ _ s1
            λ checkpoint s2.
              Ensures-after Anything Meanwhile _ (λ _ _. tt) (λ x _. thrown x refl) _ _ s2
                λ seen s3. Ensures-state Anything Meanwhile _ _ s3 (
                  Ensures-lift Anything Meanwhile _ _ _ s3
                    (λ bytes e.
                      sealed_or_failed _ _ s3
                        (sealed (envelope_of seen checkpoint s3) compatibility bytes s3 e refl))
                    (λ x _. thrown x refl))

  in-IsSaved :
      (o : Option ℕ) (c : Option Compatibility) (s : DorkWorkerRuntime)
      → Saves (snapshot_in utf8 o c) s
  unfolding snapshot_in
  in-IsSaved none c s = Ensures-ret Reply Anything Meanwhile _ _ s (booted_first refl)
  in-IsSaved (some session) none s = Ensures-ret Reply Anything Meanwhile _ _ s (booted_first refl)
  in-IsSaved (some session) (some compatibility) s = save-IsSaved session compatibility s

-- When the runtime takes a snapshot, the snapshot's bytes decode to an envelope of the snapshot's
-- revision that holds exactly the runtime's receipts, unless the runtime was disposed of before the
-- digest came; otherwise it asks to be booted first, or throws. The platform's UTF-8 encoding is
-- taken to be never shorter than the text.
pub snapshot_method-IsSaved :
    (utf8 : Utf8) (laws : IsUtf8 utf8) (s : DorkWorkerRuntime)
    → Ensures Anything Meanwhile (IsSaved utf8) (snapshot_method utf8) s
unfolding snapshot_method
snapshot_method-IsSaved utf8 laws s =
    Ensures-state Anything Meanwhile _ _ s (in-IsSaved utf8 laws s.session s.compatibility s)
