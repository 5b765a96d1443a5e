-- ===== src/Zoned/Bytes.antt =====
-- Byte buffers of src/runtime/zoned_store.rs, and the little-endian numbers in them.
use matrixcache.Base.{ℕ, zero, suc, ◌+◌, ◌*◌, ◌-◌, ◌/◌, ◌%◌, ltb, if◌then◌else◌}

-- A buffer is its length, and the byte at each place below that.
pub record Bytes : Type 0 where
  pub length : ℕ
  pub at : ℕ → ℕ

-- `vec![0u8; n]`
abbrev pub zeros : ℕ → Bytes
zeros n = record { length = n; at = λ i. 0 }

-- Byte `i` of `to_le_bytes`.
unfoldable pub le_byte : ℕ → ℕ → ℕ
le_byte n zero = n % 256
le_byte n (suc i) = le_byte (n / 256) i

-- `from_le_bytes` of the `count` bytes from `from` on.
unfoldable pub le_value : ℕ → Bytes → ℕ → ℕ
le_value zero b from = 0
le_value (suc count) b from = b.at from + 256 * le_value count b (from + 1)

-- A page of zeros with two `u64` written at its start, as a header and a footer are.
abbrev pub stamp : ℕ → ℕ → ℕ → Bytes
stamp length first second = record {
  length = length;
  at = λ i. if ltb i 8 then le_byte first i else (if ltb i 16 then le_byte second (i - 8) else 0);
}
