-- ===== src/SsdIndex/Step.antt =====
-- src/core/storage_config.rs: each call of `SsdIndex` and of the entries it stands for.
use matrixcache.Base.{◌≡◌, refl, sym, ap, Option, none, some, Bool, String, if◌then◌else◌}
use matrixcache.Base.Map.{lookup}
use matrixcache.Codec.{RecordState, pinned}
use matrixcache.SsdIndex
use matrixcache.SsdIndex.{
  SsdIndexValue, SsdIndex, state, with_state, is_state, set, kept_state, update_found, get_found,
  unpin_found, pin_found, soft_delete_found, delete_if, state_of, is_some_and,
}
use matrixcache.SsdIndex.Model.{
  Entry, Entries, entry, assign, read, unpinned, soft_deleted, restated, change, replaced, is_there,
  pinnable, satisfies,
}
use matrixcache.SsdIndex.Holds.{entry_of, Holds, set-Holds}
use matrixcache.SsdIndex.Change.{
  unpin_found-Holds, soft_delete_found-Holds, get_found-Holds, pin_found-Holds, update_found-Holds,
  delete_if-Holds,
}

pub data Call : Type 0 where
  put_key update_key : String → SsdIndexValue → Call
  get_key pin_key unpin_key soft_delete_key : String → Call
  delete_key_if : String → (RecordState → Bool) → Call

-- What a call returns.
pub data Reply : Type 0 where
  done : Reply
  answer : Bool → Reply
  found : Option Entry → Reply

unfoldable pub step : Call → SsdIndex → SsdIndex × Reply
step (put_key key value) index = (SsdIndex.put key value index, done)
step (update_key key value) index =
    let (index', there) = SsdIndex.update_index key value index in (index', answer there)
step (get_key key) index =
    let (index', value) = SsdIndex.get key index in (index', found (entry_of value))
step (pin_key key) index = let (index', new) = SsdIndex.pin key index in (index', answer new)
step (unpin_key key) index = (SsdIndex.unpin key index, done)
step (soft_delete_key key) index = (SsdIndex.soft_delete key index, done)
step (delete_key_if key pred) index =
    let (index', gone) = delete_if key pred index in (index', answer gone)

unfoldable pub model_step : Call → Entries → Entries × Reply
model_step (put_key key value) all = (assign key (some (entry value)) all, done)
model_step (update_key key value) all =
    (assign key (replaced (entry value) (all key)) all, answer (is_there (all key)))
model_step (get_key key) all = (change read key all, found (restated read (all key)))
model_step (pin_key key) all = (change (λ s. pinned) key all, answer (pinnable (all key)))
model_step (unpin_key key) all = (change unpinned key all, done)
model_step (soft_delete_key key) all = (change soft_deleted key all, done)
model_step (delete_key_if key pred) all =
    let gone = satisfies pred (all key) in (if gone then assign key none all else all, answer gone)

-- Both states after a call, and both replies.
abbrev pub Agrees : SsdIndex × Reply → Entries × Reply → Type 0
Agrees code model = Holds code.0 model.0 × (code.1 ≡ model.1)

pub step-Holds :
    (c : Call) (index : SsdIndex) (all : Entries)
    → Holds index all
    → Agrees (step c index) (model_step c all)
unfolding step model_step SsdIndex.put SsdIndex.get SsdIndex.update_index SsdIndex.pin
    SsdIndex.unpin SsdIndex.soft_delete
step-Holds (put_key key value) index all h = (set-Holds key value index all h, refl)
step-Holds (update_key key value) index all h =
    let (held, reply) =
      update_found-Holds key index all h (lookup key index.entries) value (sym (h.1 key)) in
    (held, ap answer reply)
step-Holds (get_key key) index all h =
    let (held, reply) =
      get_found-Holds key index all h (lookup key index.entries) (sym (h.1 key)) in
    (held, ap found reply)
step-Holds (pin_key key) index all h =
    let (held, reply) =
      pin_found-Holds key index all h (lookup key index.entries) (sym (h.1 key)) in
    (held, ap answer reply)
step-Holds (unpin_key key) index all h =
    (unpin_found-Holds key index all h (lookup key index.entries) (sym (h.1 key)), refl)
step-Holds (soft_delete_key key) index all h =
    (soft_delete_found-Holds key index all h (lookup key index.entries) (sym (h.1 key)), refl)
step-Holds (delete_key_if key pred) index all h =
    let (held, reply) = delete_if-Holds key index all h pred in (held, ap answer reply)
