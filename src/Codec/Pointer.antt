-- ===== src/Codec/Pointer.antt =====
-- src/core/storage_config.rs: what the packed pointers of the index hold.
use Prim.Native.Nat.{bit_and, bit_or}
use matrixcache.Base.{arith, ℕ, ◌+◌, ◌-◌, ◌*◌, ◌/◌, ◌%◌, ◌^◌, ◌<◌, ◌≡◌, refl, ap, ◌∙◌}
use mathlib.Core.Path.{ap₂}
use matrixcache.Base.Bits.{bit_and-mask, bit_and-shifted_mask, bit_or-disjoint, bit_or-high}
use matrixcache.Codec.{
  RecordState, soft_del, normal, pinned, max_code, state_code, state_of_code, decode_colored_ptr,
  mask_colored_ptr_lba, mask_colored_ptr_size, mask_colored_ptr_record_state,
  decode_colored_ptr_record_state,
}

decode_colored_ptr_lem : (ptr : ℕ) → decode_colored_ptr ptr ≡ (ptr / 2 ^ 7 % 2 ^ 12, ptr / 2 ^ 19)
unfolding decode_colored_ptr
decode_colored_ptr_lem ptr =
    let masked = bit_and-mask (ptr / 2 ^ 7) 12 in
    let size : bit_and (ptr / 2 ^ 7) (2 ^ 12 - 1) % 2 ^ 32 ≡ ptr / 2 ^ 7 % 2 ^ 12 =
      omega (arith, masked) in
    ap (λ n. (n, ptr / 2 ^ 19)) size

state_of_code-state_code : (s : RecordState) → state_of_code (state_code s) ≡ s
state_of_code-state_code soft_del = refl
state_of_code-state_code normal = refl
state_of_code-state_code pinned = refl
state_of_code-state_code max_code = refl

state_code-lt : (s : RecordState) → state_code s < 16
state_code-lt soft_del = omega arith
state_code-lt normal = omega arith
state_code-lt pinned = omega arith
state_code-lt max_code = omega arith

decode_state :
    (rest : ℕ) (s : RecordState) → decode_colored_ptr_record_state (rest * 16 + state_code s) ≡ s
unfolding decode_colored_ptr_record_state
decode_state rest s =
    let code = state_code s in
    let low : bit_and (rest * 16 + code) 15 ≡ code =
      omega (arith, bit_and-mask (rest * 16 + code) 4, state_code-lt s) in
    ap state_of_code low ∙ state_of_code-state_code s

-- A state put into a word whose state bits are clear.
mask_state-clear :
    (rest : ℕ) (s : RecordState)
    → mask_colored_ptr_record_state (rest * 16) s ≡ rest * 16 + state_code s
unfolding mask_colored_ptr_record_state
mask_state-clear rest s =
    let code = state_code s in
    let low = state_code-lt s in
    let masked : bit_and code 15 ≡ code = omega (arith, bit_and-mask code 4, low) in
    ap (bit_or (rest * 16)) masked ∙ bit_or-high 4 (rest * 16) code (omega arith) low

mask_size-clear :
    (low size : ℕ) → low < 2 ^ 7 → mask_colored_ptr_size low size ≡ low + size % 2 ^ 12 * 2 ^ 7
unfolding mask_colored_ptr_size
mask_size-clear low size small =
    ap (λ t. bit_or low (t * 2 ^ 7)) (bit_and-mask size 12)
    ∙ bit_or-disjoint 7 low (size % 2 ^ 12) small

mask_lba-clear :
    (low lba : ℕ) → low < 2 ^ 19 → mask_colored_ptr_lba low lba ≡ low + lba % 2 ^ 45 * 2 ^ 19
unfolding mask_colored_ptr_lba
mask_lba-clear low lba small =
    let word = lba * 2 ^ 19 % 2 ^ 64 in
    let masked : bit_and word 0xfffffffffff80000 ≡ lba % 2 ^ 45 * 2 ^ 19 =
      omega (arith, bit_and-shifted_mask word 19 45) in
    ap (bit_or low) masked ∙ bit_or-disjoint 19 low (lba % 2 ^ 45) small

-- A state, a size and an address, put one after the other into an empty pointer, are read back: the
-- state as it was, the size modulo 2 ^ 12 and the address modulo 2 ^ 45.
pub decode-mask_colored_ptr :
    (s : RecordState) (size lba : ℕ)
    → (let ptr =
          mask_colored_ptr_lba
            (mask_colored_ptr_size (mask_colored_ptr_record_state 0 s) size)
            lba in
        (decode_colored_ptr ptr ≡ (size % 2 ^ 12, lba % 2 ^ 45))
        × (decode_colored_ptr_record_state ptr ≡ s))
decode-mask_colored_ptr s size lba =
    let code = state_code s in
    let low = state_code-lt s in
    let sized = code + size % 2 ^ 12 * 2 ^ 7 in
    let packed = sized + lba % 2 ^ 45 * 2 ^ 19 in
    let one : mask_colored_ptr_record_state 0 s ≡ code = omega (arith, mask_state-clear 0 s) in
    let two = mask_size-clear code size (omega (arith, low)) in
    let three = mask_lba-clear sized lba (omega (arith, low)) in
    let rest = lba % 2 ^ 45 * 2 ^ 15 + size % 2 ^ 12 * 2 ^ 3 in
    let apart : packed ≡ rest * 16 + code = omega arith in
    rw (one, two, three)
      (
        decode_colored_ptr_lem packed
            ∙ ap₂ (λ a b. (a, b)) (omega (arith, low)) (omega (arith, low)),
        ap decode_colored_ptr_record_state apart ∙ decode_state rest s,
      )

-- The state bits of a pointer are cleared and set anew: of the rest, the low 64 bits stay.
pub restate :
    (ptr : ℕ) (s : RecordState)
    → (let new = mask_colored_ptr_record_state (bit_and ptr (2 ^ 64 - 1 - 15)) s in
        ((decode_colored_ptr new).0 ≡ (decode_colored_ptr ptr).0)
        × ((decode_colored_ptr new).1 ≡ (decode_colored_ptr ptr).1 % 2 ^ 45)
        × (decode_colored_ptr_record_state new ≡ s))
restate ptr s =
    let code = state_code s in
    let low = state_code-lt s in
    let rest = ptr / 16 % 2 ^ 60 in
    let cleared : bit_and ptr (2 ^ 64 - 1 - 15) ≡ rest * 16 = bit_and-shifted_mask ptr 4 60 in
    let new = rest * 16 + code in
    let old = decode_colored_ptr_lem ptr in
    rw (cleared, mask_state-clear rest s, decode_colored_ptr_lem new, old)
      (omega (arith, low), omega (arith, low), decode_state rest s)
