-- ===== src/DorkWorker/Runtime/Sound.antt =====
-- The receipt journal: no two receipts share an identity, and their number and size are bounded.
use sttork.Base.{
  ℕ, ◌+◌, ◌≤◌, ◌≡◌, refl, sym, subst, false, List, [], ◌∷◌, ◌++◌, length, length-append, none,
  arith, inl, inr,
}
use sttork.Base.Text.{Text, Text-discrete, ◌===◌}
use sttork.Base.Outcome.{Outcome, ok, ◌>>=◌, Outcome-cases}
use sttork.DorkWorker.Snapshot.Format.{Utf8, WorkerSnapshotReceipt, WorkerSnapshotEnvelope}
use sttork.DorkWorker.Runtime.State.{DorkWorkerRuntime, RuntimeError, disposed_state}
use sttork.DorkWorker.Runtime.Receipts.{
  find, set, measured, can_record_receipt, record_receipt, restored_from,
  validate_restored_receipts,
}
use sttork.DorkWorker.Runtime.Meanwhile.{Meanwhile, nothing, disposes}

-- No two receipts of one identity.
abbrev pub IsDistinct : List WorkerSnapshotReceipt → Type 0
IsDistinct [] = Unit
IsDistinct (r ∷ rs) = (find r.request_id rs ≡ none) × IsDistinct rs

module _ (utf8 : Utf8) where
  -- The bytes that the receipts take.
  unfoldable pub size_of : List WorkerSnapshotReceipt → Outcome RuntimeError ℕ
  size_of [] = ok 0
  size_of (r ∷ rs) = measured utf8 r >>= λ a. size_of rs >>= λ b. ok (a + b)

  pub record IsJournal (receipts : List WorkerSnapshotReceipt) (size count maximum : ℕ)
      : Type 0 where
    pub distinct : IsDistinct receipts
    pub sized : size_of receipts ≡ ok size
    pub few : length receipts ≤ count
    pub small : size ≤ maximum

  pub set-new :
      (stored : WorkerSnapshotReceipt) (rs : List WorkerSnapshotReceipt)
      → find stored.request_id rs ≡ none
      → set stored rs ≡ rs ++ (stored ∷ [])
  unfolding find set
  set-new stored [] h = refl
  set-new stored (r ∷ rs) h = ground (arith, set-new stored rs)

  find-append :
      (id : Text) (rs : List WorkerSnapshotReceipt) (stored : WorkerSnapshotReceipt)
      → find id rs ≡ none
      → (stored.request_id === id) ≡ false
      → find id (rs ++ (stored ∷ [])) ≡ none
  unfolding find
  find-append id [] stored h n = ground arith
  find-append id (r ∷ rs) stored h n = ground (arith, find-append id rs stored)

  apart :
      (r stored : WorkerSnapshotReceipt) (rs : List WorkerSnapshotReceipt)
      → find stored.request_id (r ∷ rs) ≡ none
      → ((stored.request_id === r.request_id) ≡ false) × (find stored.request_id rs ≡ none)
  unfolding find Text-discrete
  apart r stored rs h = ground arith

  IsDistinct-append :
      (rs : List WorkerSnapshotReceipt) (stored : WorkerSnapshotReceipt)
      → IsDistinct rs
      → find stored.request_id rs ≡ none
      → IsDistinct (rs ++ (stored ∷ []))
  unfolding find
  IsDistinct-append [] stored d h = (refl, tt)
  IsDistinct-append (r ∷ rs) stored (f, d) h =
      let (n, g) = apart r stored rs h in
      (find-append r.request_id rs stored f n, IsDistinct-append rs stored d g)

  size_of-append :
      (rs : List WorkerSnapshotReceipt) (stored : WorkerSnapshotReceipt) (size amount : ℕ)
      → size_of rs ≡ ok size
      → measured utf8 stored ≡ ok amount
      → size_of (rs ++ (stored ∷ [])) ≡ ok (size + amount)
  unfolding size_of
  size_of-append [] stored size amount h m = ground arith
  size_of-append (r ∷ rs) stored size amount h m = elim (Outcome-cases (size_of rs)) [
    | inl (rest, e) ↦ ground (arith, size_of-append rs stored rest amount e m)
    | inr (x, e) ↦ ground (arith, e)
  ]

  -- A receipt of a new identity, where there is room.
  IsJournal-set :
      (rs : List WorkerSnapshotReceipt) (stored : WorkerSnapshotReceipt)
      (size amount count count' maximum : ℕ)
      → IsJournal rs size count maximum
      → find stored.request_id rs ≡ none
      → measured utf8 stored ≡ ok amount
      → length rs + 1 ≤ count'
      → size + amount ≤ maximum
      → IsJournal (set stored rs) (size + amount) count' maximum
  IsJournal-set rs stored size amount count count' maximum j h m few small =
      rw (set-new stored rs h) (record {
        distinct = IsDistinct-append rs stored j.distinct h;
        sized = size_of-append rs stored size amount j.sized m;
        few = omega (arith, length-append rs (stored ∷ []));
        small = small;
      })

  record_receipt-parts :
      (stored : WorkerSnapshotReceipt) (s next : DorkWorkerRuntime)
      → record_receipt utf8 stored s ≡ ok next
      → (amount : ℕ) × (measured utf8 stored ≡ ok amount)
        × (length s.receipts + 1 ≤ s.max_receipts)
        × (s.receipt_journal_bytes + amount ≤ s.max_receipt_journal_bytes)
        × (next ≡ record s {
          receipts = set stored (s.receipts);
          receipt_journal_bytes = s.receipt_journal_bytes + amount;
        })
  unfolding record_receipt can_record_receipt
  record_receipt-parts stored s next h = elim (Outcome-cases (measured utf8 stored)) [
    | inl (amount, e) ↦
        (amount, e, ground (arith, h, e), ground (arith, h, e), ground (arith, h, e))
    | inr (x, e) ↦ ground (arith, h, e)
  ]

  -- The journal is sound within the limits `m` and `b`, which are the runtime's.
  pub record IsWithin (m b : ℕ) (s : DorkWorkerRuntime) : Type 0 where
    pub journal : IsJournal s.receipts s.receipt_journal_bytes m b
    pub count_limit : s.max_receipts ≡ m
    pub byte_limit : s.max_receipt_journal_bytes ≡ b

  pub record_receipt-IsWithin :
      (m b : ℕ) (stored : WorkerSnapshotReceipt) (s next : DorkWorkerRuntime)
      → IsWithin m b s
      → find stored.request_id s.receipts ≡ none
      → record_receipt utf8 stored s ≡ ok next
      → IsWithin m b next
  record_receipt-IsWithin m b stored s next w f h =
      let (amount, e, few, small, same) = record_receipt-parts stored s next h in
      subst (IsWithin m b) (sym same) (record {
        journal =
            IsJournal-set s.receipts stored s.receipt_journal_bytes amount m m b w.journal f e
              (omega (arith, few, w.count_limit)) (omega (arith, small, w.byte_limit));
        count_limit = w.count_limit;
        byte_limit = w.byte_limit;
      })

  pub disposed-IsWithin :
      (m b : ℕ) (s : DorkWorkerRuntime) → IsWithin m b s → IsWithin m b (disposed_state s)
  unfolding disposed_state size_of
  disposed-IsWithin m b s w = record {
    journal = record { distinct = tt; sized = refl; few = omega arith; small = omega arith };
    count_limit = w.count_limit;
    byte_limit = w.byte_limit;
  }

  -- Whatever the other tasks do in the meantime, the journal is sound and a new identity is new.
  pub Meanwhile-IsWithin :
      (m b : ℕ) (s s' : DorkWorkerRuntime) → IsWithin m b s → Meanwhile s s' → IsWithin m b s'
  Meanwhile-IsWithin m b s s' h nothing = h
  Meanwhile-IsWithin m b s s' h (disposes e) =
      subst (IsWithin m b) (sym e) (disposed-IsWithin m b s h)

  pub Meanwhile-find :
      (id : Text) (s s' : DorkWorkerRuntime)
      → find id s.receipts ≡ none
      → Meanwhile s s'
      → find id s'.receipts ≡ none
  unfolding find disposed_state
  Meanwhile-find id s s' h nothing = h
  Meanwhile-find id s s' h (disposes e) = rw e refl

  pub restored_from-parts :
      (maximum size : ℕ) (rs rest : List WorkerSnapshotReceipt) (stored : WorkerSnapshotReceipt)
      (r : List WorkerSnapshotReceipt × ℕ)
      → restored_from utf8 maximum rs size (stored ∷ rest) ≡ ok r
      → (amount : ℕ) × (measured utf8 stored ≡ ok amount)
        × (find stored.request_id rs ≡ none)
        × (size + amount ≤ maximum)
        × (restored_from utf8 maximum (set stored rs) (size + amount) rest ≡ ok r)
  unfolding restored_from
  restored_from-parts maximum size rs rest stored r h =
      elim (Outcome-cases (measured utf8 stored)) [
        | inl (amount, e) ↦
            (amount, e, ground (arith, h, e), ground (arith, h, e), ground (arith, h, e))
        | inr (x, e) ↦ ground (arith, h, e)
      ]

  pub restored_from-IsJournal :
      (maximum count size : ℕ) (rs rest : List WorkerSnapshotReceipt)
      (r : List WorkerSnapshotReceipt × ℕ)
      → IsJournal rs size count maximum
      → restored_from utf8 maximum rs size rest ≡ ok r
      → IsJournal r.0 r.1 (count + length rest) maximum
  unfolding restored_from
  restored_from-IsJournal maximum count size rs [] r j h =
      let e : (rs, size) ≡ r = ground (arith, h) in
      subst (λ (q : List WorkerSnapshotReceipt × ℕ). IsJournal q.0 q.1 (count + 0) maximum) (e)
        (record {
          distinct = j.distinct;
          sized = j.sized;
          few = omega (arith, j.few);
          small = j.small;
        })
  restored_from-IsJournal maximum count size rs (stored ∷ rest) r j h =
      let (amount, e, f, small, next) = restored_from-parts maximum size rs rest stored r h in
      let k =
        IsJournal-set rs stored size amount count (count + 1) maximum j f e (omega (arith, j.few))
          small in
      let i =
        restored_from-IsJournal maximum (count + 1) (size + amount) (set stored rs) rest r k next in
      record { distinct = i.distinct; sized = i.sized; few = omega (arith, i.few); small = i.small }

  -- The journal that a snapshot brings is sound within the runtime's limits.
  pub validate_restored_receipts-IsJournal :
      (m b : ℕ) (s : DorkWorkerRuntime) (e : WorkerSnapshotEnvelope)
      (r : List WorkerSnapshotReceipt × ℕ)
      → IsWithin m b s
      → validate_restored_receipts utf8 s e ≡ ok r
      → IsJournal r.0 r.1 m b
  unfolding validate_restored_receipts size_of
  validate_restored_receipts-IsJournal m b s e r w h =
      let i =
        restored_from-IsJournal b 0 0 [] e.receipts r
          (record { distinct = tt; sized = refl; few = omega arith; small = omega arith })
          (ground (arith, h, w.byte_limit)) in
      record {
        distinct = i.distinct;
        sized = i.sized;
        few = ground (arith, i.few, h, w.count_limit);
        small = i.small;
      }
