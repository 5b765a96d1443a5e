-- ===== src/Codec.antt =====
-- src/core/storage_config.rs: fixed-width numbers in byte buffers, alignment, and the packed pointers of
-- the index.
pub mod Pointer
pub mod Laws
use Prim.Native.Nat.{bit_and, bit_or}
use matrixcache.Base.{
  ℕ, zero, suc, ◌+◌, ◌-◌, ◌*◌, ◌/◌, ◌%◌, ◌^◌, ◌==◌, List, [], ◌∷◌, ◌++◌, Option, none, some, length,
  take, drop, leb, ltb, min, if◌then◌else◌, saturating_add, u64_max,
}

-- `to_le_bytes` of a number of so many bytes, and `from_le_bytes`.
unfoldable pub to_le_bytes : ℕ → ℕ → List ℕ
to_le_bytes zero n = []
to_le_bytes (suc count) n = n % 256 ∷ to_le_bytes count (n / 256)

unfoldable pub from_le_bytes : List ℕ → ℕ
from_le_bytes [] = 0
from_le_bytes (b ∷ bs) = b + 256 * from_le_bytes bs

-- The buffer after a put, and its length.
unfoldable pub put_fixed : ℕ → ℕ → List ℕ → List ℕ × ℕ
put_fixed count num buf = let buf' = buf ++ to_le_bytes count num in (buf', length buf')

abbrev pub put_fixed_uint8 : ℕ → List ℕ → List ℕ × ℕ
put_fixed_uint8 num buf = let buf' = buf ++ (num ∷ []) in (buf', length buf')

abbrev pub put_fixed_uint32 : ℕ → List ℕ → List ℕ × ℕ
put_fixed_uint32 num buf = put_fixed 4 num buf

abbrev pub put_fixed_uint64 : ℕ → List ℕ → List ℕ × ℕ
put_fixed_uint64 num buf = put_fixed 8 num buf

pub record Xxh128 : Type 0 where
  pub first : ℕ
  pub second : ℕ

unfoldable pub put_fixed_hash128 : Xxh128 → List ℕ → List ℕ × ℕ
put_fixed_hash128 hash buf = put_fixed_uint64 hash.second (put_fixed_uint64 hash.first buf).0

-- `checked_add` of a `usize`.
abbrev pub checked_add : ℕ → ℕ → Option ℕ
checked_add a b = if leb (a + b) u64_max then some (a + b) else none

-- `get(from..end)` of a slice.
abbrev pub slice : ℕ → ℕ → List ℕ → Option (List ℕ)
slice from end buf =
    if leb from end
    then (if leb end (length buf) then some (take (end - from) (drop from buf)) else none)
    else none

infixl 5 ◌>>=◌
abbrev pub ◌>>=◌ : {A B : Type 0} → Option A → (A → Option B) → Option B
none >>= f = none
some a >>= f = f a

unfoldable pub get_fixed : ℕ → List ℕ → ℕ → Option (ℕ × ℕ)
get_fixed count buf offset = do
  end ← checked_add offset count
  bytes ← slice offset end buf
  some (from_le_bytes bytes, end)

abbrev pub get_fixed_uint32 : List ℕ → ℕ → Option (ℕ × ℕ)
get_fixed_uint32 buf offset = get_fixed 4 buf offset

abbrev pub get_fixed_uint64 : List ℕ → ℕ → Option (ℕ × ℕ)
get_fixed_uint64 buf offset = get_fixed 8 buf offset

unfoldable pub get_fixed_hash128 : List ℕ → ℕ → Option (Xxh128 × ℕ)
get_fixed_hash128 buf offset = do
  (first, middle) ← get_fixed_uint64 buf offset
  (second, end) ← get_fixed_uint64 buf middle
  some (record { first = first; second = second }, end)

unfoldable pub aligned_to : ℕ → ℕ → ℕ
aligned_to size align_size =
    let align = min align_size (2 ^ 32 - 1) in
    let rem = size % align in
    if align_size == 0
    then size
    else (if rem == 0 then size else min (size + (align - rem)) (2 ^ 32 - 1))

unfoldable pub copy_bytes_from : List ℕ → ℕ → ℕ → Option (List ℕ × ℕ)
copy_bytes_from src offset len = do
  end ← checked_add offset len
  bytes ← slice offset end src
  some (bytes, end)

pub data RecordState : Type 0 where
  soft_del normal pinned max_code : RecordState

abbrev pub state_code : RecordState → ℕ
state_code soft_del = 0
state_code normal = 1
state_code pinned = 2
state_code max_code = 15

unfoldable pub decode_colored_ptr : ℕ → ℕ × ℕ
decode_colored_ptr colored_ptr =
    (bit_and (colored_ptr / 2 ^ 7) (2 ^ 12 - 1) % 2 ^ 32, colored_ptr / 2 ^ 19)

-- `lba << 19` drops the bits above 64.
unfoldable pub mask_colored_ptr_lba : ℕ → ℕ → ℕ
mask_colored_ptr_lba old_colored_ptr lba =
    bit_or old_colored_ptr (bit_and (lba * 2 ^ 19 % 2 ^ 64) 0xfffffffffff80000)

unfoldable pub mask_colored_ptr_size : ℕ → ℕ → ℕ
mask_colored_ptr_size old_colored_ptr size =
    bit_or old_colored_ptr (bit_and size (2 ^ 12 - 1) * 2 ^ 7)

unfoldable pub mask_colored_ptr_record_state : ℕ → RecordState → ℕ
mask_colored_ptr_record_state old_colored_ptr state =
    bit_or old_colored_ptr (bit_and (state_code state) (state_code max_code))

abbrev pub state_of_code : ℕ → RecordState
state_of_code n =
    if n == 0 then soft_del else (if n == 2 then pinned else (if n == 15 then max_code else normal))

unfoldable pub decode_colored_ptr_record_state : ℕ → RecordState
decode_colored_ptr_record_state colored_ptr = state_of_code (bit_and colored_ptr (2 ^ 4 - 1))
