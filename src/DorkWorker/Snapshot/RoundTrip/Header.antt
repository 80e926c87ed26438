-- ===== src/DorkWorker/Snapshot/RoundTrip/Header.antt =====
-- The header and the fixed fields of the body are read back from their writes.
use sttork.Base.{ℕ, ◌≤◌, ◌<◌, ◌≡◌, refl, List, [], ◌∷◌, ◌++◌, arith}
use sttork.Base.Text.{Text-discrete}
use sttork.Base.Outcome.{ok}
use sttork.Contracts.Engine.{Boundary, max_safe_integer}
use sttork.DorkWorker.Snapshot.Format.{magic_bytes}
use sttork.DorkWorker.Snapshot.Prepare.{boundary_from_marker}
use sttork.DorkWorker.Snapshot.Writer.{raw, u8, u16, u32, u64, field_bytes}
use sttork.DorkWorker.Snapshot.Reader.{
  ◌>>=◌, pure, checked, reserved_u8, reserved_u16, magic, bytes,
}
use sttork.DorkWorker.Snapshot.Decode.{body_fields, decode_header}
use sttork.DorkWorker.Snapshot.RoundTrip.Writes.{put}
use sttork.DorkWorker.Snapshot.RoundTrip.Reads.{read-u8, read-u16, read-u32, read-u64}

read-magic : (rest : List ℕ) → magic (magic_bytes ++ rest) ≡ ok (tt, rest)
unfolding magic ◌>>=◌ checked bytes Text-discrete
read-magic rest = refl

read-reserved_u8 : (rest : List ℕ) → reserved_u8 (put (u8 0 ∷ []) rest) ≡ ok (tt, rest)
unfolding reserved_u8 ◌>>=◌ checked field_bytes
read-reserved_u8 rest = ground (arith, read-u8 0 rest)

read-reserved_u16 : (rest : List ℕ) → reserved_u16 (put (u16 0 ∷ []) rest) ≡ ok (tt, rest)
unfolding reserved_u16 ◌>>=◌ checked field_bytes
read-reserved_u16 rest = ground (arith, read-u16 0 rest)

pub read-header :
    (total : ℕ) (rest : List ℕ)
    → total < 4294967296
    → decode_header total (put (raw magic_bytes ∷ u16 1 ∷ u16 0 ∷ u32 total ∷ []) rest)
      ≡ ok (tt, rest)
unfolding decode_header ◌>>=◌ checked field_bytes
read-header total rest h = ground (
  arith,
  read-magic (put (u16 1 ∷ u16 0 ∷ u32 total ∷ []) rest),
  read-u16 1 (put (u16 0 ∷ u32 total ∷ []) rest),
  read-reserved_u16 (put (u32 total ∷ []) rest),
  read-u32 total rest,
)

pub read-body :
    (revision marker output checkpoint count journal : ℕ) (b : Boundary) (rest : List ℕ)
    → revision ≤ max_safe_integer
    → marker < 256
    → boundary_from_marker marker ≡ ok b
    → output < 4294967296
    → checkpoint < 4294967296
    → count < 65536
    → journal < 4294967296
    → body_fields (
        put
          (u64 revision
            ∷ u8 marker
            ∷ u8 0
            ∷ u16 0
            ∷ u32 output
            ∷ u32 checkpoint
            ∷ u16 count
            ∷ u16 0
            ∷ u32 journal
            ∷ [])
          rest)
      ≡ ok (
        record {
          revision = revision;
          boundary = b;
          last_output = output;
          inner_checkpoint = checkpoint;
          receipt_count = count;
          journal = journal;
        },
        rest,
      )
unfolding body_fields ◌>>=◌ checked pure field_bytes
read-body r m o c n j b rest hr hm hb ho hc hn hj = ground (
  arith,
  read-u64 r (put (u8 m ∷ u8 0 ∷ u16 0 ∷ u32 o ∷ u32 c ∷ u16 n ∷ u16 0 ∷ u32 j ∷ []) rest),
  read-u8 m (put (u8 0 ∷ u16 0 ∷ u32 o ∷ u32 c ∷ u16 n ∷ u16 0 ∷ u32 j ∷ []) rest),
  read-reserved_u8 (put (u16 0 ∷ u32 o ∷ u32 c ∷ u16 n ∷ u16 0 ∷ u32 j ∷ []) rest),
  read-reserved_u16 (put (u32 o ∷ u32 c ∷ u16 n ∷ u16 0 ∷ u32 j ∷ []) rest),
  read-u32 o (put (u32 c ∷ u16 n ∷ u16 0 ∷ u32 j ∷ []) rest),
  read-u32 c (put (u16 n ∷ u16 0 ∷ u32 j ∷ []) rest),
  read-u16 n (put (u16 0 ∷ u32 j ∷ []) rest),
  read-reserved_u16 (put (u32 j ∷ []) rest),
  read-u32 j rest,
)
