-- ===== src/DorkWorker/Snapshot/RoundTrip/Reads.antt =====
-- Each field is read back from its bytes, whatever follows them.
use Prim.Native.Nat.{◌/◌, ◌%◌}
use sttork.Base.{ℕ, ◌+◌, ◌*◌, ◌-◌, ◌≤◌, ◌<◌, ◌≡◌, refl, List, [], ◌∷◌, ◌++◌, length, arith}
use sttork.Base.Outcome.{ok, Outcome}
use sttork.Contracts.Engine.{max_safe_integer}
use sttork.DorkWorker.Snapshot.Writer.{u8_bytes, u16_bytes, u32_bytes, u64_bytes, uint32_factor}
use sttork.DorkWorker.Snapshot.Reader.{◌>>=◌, checked, bytes, u8, u16, u32, safe_u64, pure}

pub checked-ok :
    {A : Type 0} {o : Outcome _ A} {a : A} (rest : List ℕ)
    → o ≡ ok a
    → checked o rest ≡ ok (a, rest)
unfolding checked
checked-ok rest h = rw h refl

pub read-u8 : (v : ℕ) (rest : List ℕ) → v < 256 → u8 (u8_bytes v ++ rest) ≡ ok (v, rest)
unfolding u8
read-u8 v rest h = let e : v % 256 ≡ v = omega arith in rw e refl

pub read-u16 : (v : ℕ) (rest : List ℕ) → v < 65536 → u16 (u16_bytes v ++ rest) ≡ ok (v, rest)
unfolding u16
read-u16 v rest h = let e : v / 256 % 256 * 256 + v % 256 ≡ v = omega arith in rw e refl

pub read-u32 : (v : ℕ) (rest : List ℕ) → v < 4294967296 → u32 (u32_bytes v ++ rest) ≡ ok (v, rest)
unfolding u32
read-u32 v rest h =
    let e : ((v / 16777216 % 256 * 256 + v / 65536 % 256) * 256 + v / 256 % 256) * 256 + v % 256
        ≡ v =
      omega arith in
    rw e refl

pub read-u64 :
    (v : ℕ) (rest : List ℕ) → v ≤ max_safe_integer → safe_u64 (u64_bytes v ++ rest) ≡ ok (v, rest)
unfolding safe_u64 ◌>>=◌ checked pure
read-u64 v rest h =
    let high = v / uint32_factor in
    let low = v - high * uint32_factor in
    ground (arith, read-u32 high (u32_bytes low ++ rest), read-u32 low rest)

pub read-bytes : (bs rest : List ℕ) → bytes (length bs) (bs ++ rest) ≡ ok (bs, rest)
unfolding bytes
read-bytes [] rest = refl
read-bytes (b ∷ bs) rest = rw (read-bytes bs rest) refl
