-- ===== src/Fifo/Put.antt =====
-- src/runtime/replacement.rs, `ReplacementFifo::put` and `update_cache_buffer` against the plain list of
-- buffers.
use matrixcache.Base.{
  ℕ, ◌+◌, ◌<◌, ◌^◌, ◌≡◌, refl, sym, ◌∙◌, ap, Bool, true, false, not, Option, none, some, List, [],
  ◌∷◌, ◌++◌, String, length, is_some, str_eq, list_eq, if◌then◌else◌, Result, ok, err, Bool-cases,
  inl, inr,
}
use mathlib.Core.Path.{subst}
use matrixcache.Base.Map.{lookup, keys}
use matrixcache.Arena.{key_list_nil}
use matrixcache.Buffer.{CacheBuffer, CacheError, not_found, replace_mismatch, cache_buffer_space}
use matrixcache.Fifo.{FifoEntry, ReplacementFifo, put_at, put, update_at, update_cache_buffer}
use matrixcache.Fifo.Model.{FifoModel, total, replace, settle}
use matrixcache.Fifo.Holds.{FifoHolds, lookup-buffers, held_by}
use matrixcache.Fifo.Write.{rewrite_at, rewrite_at-FifoHolds}
use matrixcache.Fifo.Append.{put_new-FifoHolds}
use matrixcache.Fifo.Evict.{evict_to_capacity-FifoHolds}

-- A buffer in the place of the one under its key, or behind the others.
abbrev pub write : CacheBuffer → FifoModel → FifoModel
write b m = record m {
  queue =
      if is_some (lookup b.key m.queue)
      then replace b.key b m.queue
      else m.queue ++ ((b.key, b) ∷ []);
}

unfoldable pub model_put : CacheBuffer → FifoModel → FifoModel × List CacheBuffer
model_put b m =
    if not m.initialized then (m, []) else (if str_eq b.key "" then (m, []) else settle (write b m))

unfoldable pub model_update :
    Option CacheBuffer
    → String
    → List ℕ
    → CacheBuffer
    → FifoModel
    → FifoModel × Result CacheError (Unit {0})
model_update none k old_data b m = (m, err not_found)
model_update (some old) k old_data b m =
    if not (list_eq old.value old_data)
    then (m, err replace_mismatch)
    else ((settle (record m { queue = replace k b m.queue })).0, ok tt)

-- Both sides take the same branch.
if-FifoHolds :
    (c c' : Bool) {s t : ReplacementFifo × List CacheBuffer} {s' t' : FifoModel × List CacheBuffer}
    → c ≡ c'
    → FifoHolds s.0 s'.0 × (s.1 ≡ s'.1)
    → FifoHolds t.0 t'.0 × (t.1 ≡ t'.1)
    → let r = if c then s else t in
      let r' = if c' then s' else t' in FifoHolds r.0 r'.0 × (r.1 ≡ r'.1)
if-FifoHolds true true e a b = a
if-FifoHolds true false e a b = cc
if-FifoHolds false true e a b = cc
if-FifoHolds false false e a b = b

put_at-FifoHolds :
    (o : Option FifoEntry) (b : CacheBuffer) (f : ReplacementFifo) {m : FifoModel}
    → FifoHolds f m
    → lookup b.key f.index ≡ o
    → total m.queue + cache_buffer_space b < 2 ^ 64
    → length (keys m.queue) < key_list_nil
    → FifoHolds (put_at o b f) (write b m)
unfolding put_at rewrite_at
put_at-FifoHolds none b f {m} h hit fits room =
    let absent : lookup b.key m.queue ≡ none =
      sym (h.same b.key) ∙ (lookup-buffers b.key f.index ∙ ap held_by hit) in
    rw absent (put_new-FifoHolds b f h hit fits room)
put_at-FifoHolds (some e) b f {m} h hit fits room =
    let present : lookup b.key m.queue ≡ some e.buffer =
      sym (h.same b.key) ∙ (lookup-buffers b.key f.index ∙ ap held_by hit) in
    rw present (rewrite_at-FifoHolds b.key e b f h hit fits)

-- `put` as the model does it.
pub put-FifoHolds :
    (b : CacheBuffer) (f : ReplacementFifo) {m : FifoModel}
    → FifoHolds f m
    → total m.queue + cache_buffer_space b < 2 ^ 64
    → length (keys m.queue) < key_list_nil
    → let (f', evicted) = put b f in
      let (m', gone) = model_put b m in FifoHolds f' m' × (evicted ≡ gone)
unfolding put model_put
put-FifoHolds b f {m} h fits room =
    let agree =
      if-FifoHolds (str_eq b.key "") (str_eq b.key "") refl (h, refl)
        (evict_to_capacity-FifoHolds (put_at (lookup b.key f.index) b f)
          (put_at-FifoHolds (lookup b.key f.index) b f h refl fits room)) in
    if-FifoHolds (not f.base.initialized) (not m.initialized) (ap not h.initialized) (h, refl) agree

update_at-FifoHolds :
    (o : Option FifoEntry) (k : String) (old_data : List ℕ) (b : CacheBuffer) (f : ReplacementFifo)
    {m : FifoModel}
    → FifoHolds f m
    → lookup k f.index ≡ o
    → total m.queue + cache_buffer_space b < 2 ^ 64
    → let (f', r) = update_at o k old_data b f in
      let (m', r') = model_update (held_by o) k old_data b m in FifoHolds f' m' × (r ≡ r')
unfolding update_at model_update rewrite_at
update_at-FifoHolds none k old_data b f {m} h hit fits = (h, refl)
update_at-FifoHolds (some e) k old_data b f {m} h hit fits =
    elim (Bool-cases (list_eq e.buffer.value old_data)) [
      | inl q ↦ rw q (
        (evict_to_capacity-FifoHolds (rewrite_at k e b f)
            (rewrite_at-FifoHolds k e b f h hit fits)).0,
        refl,
      )
      | inr q ↦ rw q (h, refl)
    ]

-- `update_cache_buffer` as the model does it.
pub update_cache_buffer-FifoHolds :
    (k : String) (old_data : List ℕ) (b : CacheBuffer) (f : ReplacementFifo) {m : FifoModel}
    → FifoHolds f m
    → total m.queue + cache_buffer_space b < 2 ^ 64
    → let (f', r) = update_cache_buffer k old_data b f in
      let (m', r') = model_update (lookup k m.queue) k old_data b m in FifoHolds f' m' × (r ≡ r')
unfolding update_cache_buffer
update_cache_buffer-FifoHolds k old_data b f {m} h fits =
    subst
      (λ o.
        FifoHolds (update_at (lookup k f.index) k old_data b f).0 (model_update o k old_data b m).0
        × ((update_at (lookup k f.index) k old_data b f).1 ≡ (model_update o k old_data b m).1))
      (sym (lookup-buffers k f.index) ∙ h.same k)
      (update_at-FifoHolds (lookup k f.index) k old_data b f h refl fits)
