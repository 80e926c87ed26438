-- ===== src/DorkWorker/Snapshot/Reader.antt =====
-- spikes/dork-worker/worker-snapshot-envelope.ts: the class BinaryReader and the readers of fields.
-- A reader is the bytes that are left, so a method takes them and gives what is left after it.
use sttork.Base.{ℕ, zero, suc, Bool, not, ◌&&◌, List, [], ◌∷◌, ltb, ◌==◌, length, ◌+◌, ◌*◌}
use sttork.Base.Text.{Text, ◌===◌}
use sttork.Base.Outcome.{Outcome, ok, err, throw_if, require}
use sttork.DorkWorker.Snapshot.Format.{
  CodecError, truncated, invalid_value, nonzero_reserved, limit_exceeded, invalid_magic,
  magic_bytes, Utf8,
}
use sttork.DorkWorker.Snapshot.Prepare.{decode_fatal_utf8}
use sttork.DorkWorker.Snapshot.Writer.{uint32_factor}

abbrev pub Reader : Type 0 → Type 0
Reader A = List ℕ → Outcome CodecError (A × List ℕ)

infixl 5 ◌>>=◌ ◌>>◌
unfoldable pub ◌>>=◌ : {A B : Type 0} → Reader A → (A → Reader B) → Reader B
(m >>= k) bytes = elim (m bytes) [ ok (a, rest) ↦ k a rest | err e ↦ err e ]

abbrev pub ◌>>◌ : {B : Type 0} → Reader (Unit {0}) → Reader B → Reader B
m >> k = m >>= λ _. k

unfoldable pub pure : {A : Type 0} → A → Reader A
pure a rest = ok (a, rest)

-- A check between two reads.
unfoldable pub checked : {A : Type 0} → Outcome CodecError A → Reader A
checked (ok a) rest = ok (a, rest)
checked (err e) rest = err e

unfoldable pub remaining : Reader ℕ
remaining rest = ok (length rest, rest)

unfoldable pub bytes : ℕ → Reader (List ℕ)
bytes zero rest = ok ([], rest)
bytes (suc n) [] = err truncated
bytes (suc n) (b ∷ rest) = elim (bytes n rest) [ ok (bs, left) ↦ ok (b ∷ bs, left) | err e ↦ err e ]

unfoldable pub u8 : Reader ℕ
u8 [] = err truncated
u8 (a ∷ rest) = ok (a, rest)

unfoldable pub u16 : Reader ℕ
u16 (a ∷ b ∷ rest) = ok (a * 256 + b, rest)
u16 _ = err truncated

unfoldable pub u32 : Reader ℕ
u32 (a ∷ b ∷ c ∷ d ∷ rest) = ok (((a * 256 + b) * 256 + c) * 256 + d, rest)
u32 _ = err truncated

-- `MAX_SAFE_U64_HIGH_WORD`, 0x001f_ffff
abbrev pub max_safe_u64_high_word : ℕ
max_safe_u64_high_word = 2097151

unfoldable pub safe_u64 : Reader ℕ
unfolding ◌>>=◌ u32 checked pure
safe_u64 = do
  high ← u32
  low ← u32
  checked (throw_if (ltb max_safe_u64_high_word high) invalid_value)
  pure (high * uint32_factor + low)

unfoldable pub reserved_u8 : Reader (Unit {0})
unfolding ◌>>=◌ u8 checked
reserved_u8 = do value ← u8; checked (throw_if (not (value == 0)) nonzero_reserved)

unfoldable pub reserved_u16 : Reader (Unit {0})
unfolding ◌>>=◌ u16 checked
reserved_u16 = do value ← u16; checked (throw_if (not (value == 0)) nonzero_reserved)

-- `assertMagic(reader.bytes(magicBytes.byteLength))`
unfoldable pub magic : Reader (Unit {0})
unfolding ◌>>=◌ bytes checked
magic = do
  actual ← bytes (length magic_bytes)
  checked (require (actual === magic_bytes) invalid_magic)

-- `readBoundedUtf8`
unfoldable pub bounded_utf8 : Utf8 → ℕ → ℕ → Bool → Reader Text
unfolding ◌>>=◌ bytes checked decode_fatal_utf8
bounded_utf8 utf8 byte_length maximum_bytes allow_empty = do
  checked (throw_if (ltb maximum_bytes byte_length) limit_exceeded)
  checked (throw_if (not allow_empty && (byte_length == 0)) invalid_value)
  bs ← bytes byte_length
  checked (decode_fatal_utf8 utf8 bs)
