-- ===== src/Concur/Bridge/Tasks.antt =====
-- A task that stores a value (host/concur/fx_async_bridge.c): its spawn and its run.
use fxlang.Prelude.{ℕ, suc, ◌≡◌, ◌<◌, true, false, none, some, ℤ, set, Ptr, update, modify, arith}
use fxlang.Concur.Nursery.{Nursery, Slot, fx_nursery_spawn}
use fxlang.Concur.Bridge.{
  World, store_arg, free_arg, task_at, run_task, call_task, spawn_at, spawn_with,
  fx_async_store_task, fx_async_nursery_spawn_add,
}

-- What is stored in which slot, and where malloc puts the task's argument.
pub record Job : Type 0 where
  pub at : Ptr
  pub slot : Ptr
  pub value : ℤ

-- What the spawn asks of a job: malloc gave an address, and the handle is one.
abbrev pub IsJob : Job → Type 0
IsJob j = (0 < j.at) × (0 < j.slot)

abbrev pub task_of : Job → Slot
task_of j = record { fn = 1; arg = j.at; used = true; joined = false }

-- The task waits in the nursery with its argument on the heap.
abbrev pub IsQueued : (n_h : Ptr) → World → ℕ → Job → Type 0
IsQueued n_h w i j =
    (task_at (w.nurseries n_h) i ≡ some (task_of j))
    × (w.args j.at ≡ some (store_arg j.slot j.value))

-- Its value is in the slot, and its argument is freed.
abbrev pub IsDone : World → Job → Type 0
IsDone w j = (w.slots j.slot ≡ some j.value) × (w.args j.at ≡ none)

abbrev pub added : Nursery → Job → Nursery
added n j = record n { slots = set n.slots n.count (task_of j); count = suc n.count }

abbrev pub spawned : (n_h : Ptr) → Nursery → Job → World → World
spawned n_h n j w = record w {
  nurseries = update w.nurseries n_h (some (added n j));
  args = update w.args j.at (some (store_arg j.slot j.value));
}

pub spawn_add-spawned :
    (n_h : Ptr) (n : Nursery) (j : Job) (w : World)
    → w.nurseries n_h ≡ some n
    → n.live ≡ true
    → n.count < n.capacity
    → 0 < n_h
    → IsJob j
    → fx_async_nursery_spawn_add j.at true n_h j.slot j.value w ≡ (0, spawned n_h n j w)
unfolding fx_async_nursery_spawn_add spawn_with spawn_at fx_nursery_spawn
spawn_add-spawned n_h n j w e live room handle (at, slot) = ground (arith, e)

abbrev pub stored : Job → World → World
stored j w = free_arg j.at (record w { slots = modify w.slots j.slot (λ old. j.value) })

pub run_task-stored :
    (n_h : Ptr) (i : ℕ) (j : Job) (w : World) (old : ℤ)
    → IsQueued n_h w i j
    → 0 < j.slot
    → w.slots j.slot ≡ some old
    → run_task n_h i w ≡ some (stored j w)
unfolding run_task call_task fx_async_store_task
run_task-stored n_h i j w old (queued, waits) room e = ground (arith, queued, waits)
