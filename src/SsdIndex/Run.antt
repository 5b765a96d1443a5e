-- ===== src/SsdIndex/Run.antt =====
-- src/core/storage_config.rs: `SsdIndex` against the entries it stands for, over any sequence of calls.
use mathlib.Core.Path.{ap₂}
use matrixcache.Base.{◌≡◌, refl, List, [], ◌∷◌, none}
use matrixcache.Base.Map.{lookup}
use matrixcache.SsdIndex.{SsdIndex, new}
use matrixcache.SsdIndex.Model.{Entries}
use matrixcache.SsdIndex.Holds.{Holds}
use matrixcache.SsdIndex.Step.{Call, Reply, step, model_step, step-Holds}

unfoldable pub run : List Call → SsdIndex → List Reply
run [] index = []
run (c ∷ cs) index = let (index', reply) = step c index in reply ∷ run cs index'

unfoldable pub entries_run : List Call → Entries → List Reply
entries_run [] all = []
entries_run (c ∷ cs) all = let (all', reply) = model_step c all in reply ∷ entries_run cs all'

run-entries_run_from :
    (calls : List Call) (index : SsdIndex) (all : Entries)
    → Holds index all
    → run calls index ≡ entries_run calls all
unfolding run entries_run
run-entries_run_from [] index all h = refl
run-entries_run_from (c ∷ cs) index all h =
    let (held, reply) = step-Holds c index all h in
    ap₂ ◌∷◌ reply (run-entries_run_from cs (step c index).0 (model_step c all).0 held)

-- No sequence of calls on a new index tells it from a function that gives each key the place of its
-- record and a state: a put sets both, an update of a present key only the place, a read brings a
-- soft-deleted record back, a pinned one is not soft-deleted, only a pinned one is unpinned, and the
-- state is never lost in a packed pointer. All replies are the same; an address counts modulo 2 ^ 45.
pub run-entries_run : (calls : List Call) → run calls new ≡ entries_run calls (λ key. none)
unfolding lookup
run-entries_run calls = run-entries_run_from calls new (λ key. none) (tt, λ any. refl)
