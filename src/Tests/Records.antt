-- ===== src/Tests/Records.antt =====
-- src/core/storage_config.rs: numbers in buffers, packed pointers and the index, at concrete inputs.
use matrixcache.Base.{arith, ◌*◌, ◌+◌, ◌^◌, ◌≡◌, refl, List, [], ◌∷◌, ◌++◌, none, some, true}
use matrixcache.Codec.{
  Xxh128, to_le_bytes, put_fixed, put_fixed_hash128, get_fixed_hash128, normal, pinned,
  decode_colored_ptr, mask_colored_ptr_lba, mask_colored_ptr_size, mask_colored_ptr_record_state,
  decode_colored_ptr_record_state, copy_bytes_from, aligned_to,
}
use matrixcache.Base.Map.{lookup, insert, remove}
use matrixcache.Codec.Laws.{get_fixed_hash128-put_fixed_hash128}
use matrixcache.Codec.Pointer.{decode-mask_colored_ptr}
use matrixcache.SsdIndex.{
  new, ssd_colored_ptr, memory, state, with_state, update_found, update_index, put, get_found, get,
  unpin_found, unpin, pin_found, pin, soft_delete_found, soft_delete, delete_if,
}
use matrixcache.SsdIndex.Model.{on_device, entry}
use matrixcache.SsdIndex.Step.{
  Call, put_key, update_key, get_key, pin_key, unpin_key, soft_delete_key, delete_key_if, done,
  answer, found, step,
}
use matrixcache.SsdIndex.Run.{run, entries_run, run-entries_run}

abbrev hash : Xxh128
hash = record { first = 0x0102030405060708; second = 258 }

aligned : aligned_to 4097 4096 ≡ 8192
unfolding aligned_to
aligned = refl

copied : copy_bytes_from (1 ∷ 2 ∷ 3 ∷ []) 1 2 ≡ some (2 ∷ 3 ∷ [], 3)
unfolding copy_bytes_from
copied = refl

get_fixed_hash128-put_fixed_hash128_example :
    get_fixed_hash128 ((put_fixed_hash128 hash (7 ∷ [])).0 ++ (9 ∷ [])) 1 ≡ some (hash, 17)
unfolding put_fixed_hash128 put_fixed to_le_bytes
get_fixed_hash128-put_fixed_hash128_example =
    get_fixed_hash128-put_fixed_hash128 hash (7 ∷ []) (9 ∷ []) (omega arith) (omega arith)
      (omega arith)

decode-mask_colored_ptr_example :
    let ptr =
      mask_colored_ptr_lba
        (mask_colored_ptr_size (mask_colored_ptr_record_state 0 pinned) 4097)
        12345 in
    (decode_colored_ptr ptr ≡ (1, 12345)) × (decode_colored_ptr_record_state ptr ≡ pinned)
decode-mask_colored_ptr_example = decode-mask_colored_ptr pinned 4097 12345

-- A record is put, pinned, moved to the device, not deleted while pinned, unpinned, soft-deleted,
-- read and deleted.
abbrev calls : List Call
calls =
    put_key "a" (memory (1 ∷ 2 ∷ []) normal)
    ∷ pin_key "a"
    ∷ update_key "a" (ssd_colored_ptr (3 * 2 ^ 19 + 5 * 2 ^ 7 + 1))
    ∷ soft_delete_key "a"
    ∷ get_key "a"
    ∷ unpin_key "a"
    ∷ soft_delete_key "a"
    ∷ get_key "a"
    ∷ delete_key_if "a" (λ s. true)
    ∷ get_key "a"
    ∷ []

run_replies :
    run calls new
    ≡ done
      ∷ answer true
      ∷ answer true
      ∷ done
      ∷ found (some (record { place = on_device 5 3; state = pinned }))
      ∷ done
      ∷ done
      ∷ found (some (record { place = on_device 5 3; state = normal }))
      ∷ answer true
      ∷ found none
      ∷ []
unfolding run step put get get_found update_index update_found pin pin_found unpin unpin_found
    soft_delete soft_delete_found delete_if state with_state entry decode_colored_ptr
    mask_colored_ptr_record_state decode_colored_ptr_record_state lookup insert remove
run_replies = refl

run-entries_run_example : run calls new ≡ entries_run calls (λ key. none)
run-entries_run_example = run-entries_run calls
