-- ===== src/DorkWorker/Snapshot/Writer.antt =====
-- spikes/dork-worker/worker-snapshot-envelope.ts: the class BinaryWriter. Its buffer is the bytes
-- written so far and the length that was allotted; the calls made on it are a list.
use Prim.Native.Nat.{◌/◌, ◌%◌}
use sttork.Base.{ℕ, List, [], ◌∷◌, ◌++◌, ltb, ◌==◌, length, ◌+◌, ◌-◌, ◌*◌}
use sttork.Base.Outcome.{Outcome, ok, ◌>>=◌, ◌>>◌, throw_if, require}
use sttork.DorkWorker.Snapshot.Format.{CodecError, range_error, invalid_input}

pub record BinaryWriter : Type 0 where
  pub byte_length : ℕ
  pub written : List ℕ

-- 0x1_0000_0000
abbrev pub uint32_factor : ℕ
uint32_factor = 4294967296

unfoldable pub create : ℕ → BinaryWriter
create byte_length = record { byte_length = byte_length; written = [] }

-- `setUint8`, `setUint16` and `setUint32`, big-endian: they keep the value's lowest bits.
abbrev pub u8_bytes : ℕ → List ℕ
u8_bytes v = (v % 256) ∷ []

abbrev pub u16_bytes : ℕ → List ℕ
u16_bytes v = (v / 256 % 256) ∷ (v % 256) ∷ []

abbrev pub u32_bytes : ℕ → List ℕ
u32_bytes v = (v / 16777216 % 256) ∷ (v / 65536 % 256) ∷ (v / 256 % 256) ∷ (v % 256) ∷ []

-- `Math.floor(value / UINT32_FACTOR)`, then what is left
abbrev pub u64_bytes : ℕ → List ℕ
u64_bytes v = u32_bytes (v / uint32_factor) ++ u32_bytes (v - v / uint32_factor * uint32_factor)

-- A call of one of the writer's methods.
pub data Field : Type 0 where
  raw : List ℕ → Field
  u8 u16 u32 u64 : ℕ → Field

unfoldable pub field_bytes : Field → List ℕ
field_bytes (raw bs) = bs
field_bytes (u8 v) = u8_bytes v
field_bytes (u16 v) = u16_bytes v
field_bytes (u32 v) = u32_bytes v
field_bytes (u64 v) = u64_bytes v

unfoldable pub write : Field → BinaryWriter → Outcome CodecError BinaryWriter
unfolding field_bytes
write f w = do
  throw_if (ltb w.byte_length (length w.written + length (field_bytes f))) range_error
  ok (record w { written = w.written ++ field_bytes f })

unfoldable pub write_all : List Field → BinaryWriter → Outcome CodecError BinaryWriter
unfolding write
write_all [] w = ok w
write_all (f ∷ fs) w = do next ← write f w; write_all fs next

unfoldable pub finish : BinaryWriter → Outcome CodecError (List ℕ)
finish w = do require (length w.written == w.byte_length) invalid_input; ok w.written
