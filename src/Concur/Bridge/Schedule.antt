-- ===== src/Concur/Bridge/Schedule.antt =====
-- A batch of store tasks of which some run while others are still to be spawned
-- (host/concur/fx_async_bridge.c, `fx_async_nursery_spawn_add`, `fx_async_store_task` and
-- `fx_async_slot_get`).
pub mod Underway
pub mod Spawns
pub mod Runs
pub mod Delivery
pub mod Order
pub mod Batch
use fxlang.Prelude.{
  ℕ, zero, suc, ◌+◌, ◌≡◌, ◌≢◌, ◌≤◌, ◌<◌, ◌∙◌, refl, sym, ap, subst, Bool, true, false, ◌||◌, ◌⊎◌,
  inl, inr, Option, none, some, List, [], ◌∷◌, ◌==◌, ℤ, get_or, set, Ptr, arith, update,
  if◌then◌else◌, length, length-set, get_or-set_self, get_or-set_ne, dec_lt, ℕ_discrete, IsI32,
  to_i32_of_IsI32, modify, map_option, Bool-cases,
}
use fxlang.Concur.Nursery.{Nursery, Slot, blank}
use fxlang.Concur.Nursery.Grows.{IsValid}
use fxlang.Concur.Bridge.{
  World, store_arg, task_at, run_task, fx_async_nursery_spawn_add, fx_async_slot_get,
}
use fxlang.Concur.Bridge.Tasks.{
  Job, IsJob, task_of, IsQueued, IsDone, added, spawned, spawn_add-spawned, stored, run_task-stored,
}

-- The next job of the batch is spawned, or the thread of a slot of the nursery runs.
pub data Event : Type 0 where
  spawns : Event
  runs : (i : ℕ) → Event

-- The events one after the other; `job i` is the job of slot `i`, and `next` the first one that is not
-- spawned. `none` where a spawn fails or a task does not end.
abbrev pub carry_out :
    (n_h : Ptr) → (job : ℕ → Job) → (next : ℕ) → List Event → World → Option World
carry_out n_h job next [] w = some w
carry_out n_h job next (spawns ∷ events) w =
    let (status, after) =
      fx_async_nursery_spawn_add (job next).at true n_h (job next).slot (job next).value w in
    elim (status == 0) [ false ↦ none | true ↦ carry_out n_h job (suc next) events after ]
carry_out n_h job next (runs i ∷ events) w = elim (run_task n_h i w) [
  | none ↦ none
  | some after ↦ carry_out n_h job next events after
]

-- Every job from `next` up to `total` is spawned once, and every task runs once, after its spawn.
-- `waits i` says whether the task of slot `i` is spawned and has not run.
abbrev pub IsSchedule : (total next : ℕ) → (waits : ℕ → Bool) → List Event → Type 0
IsSchedule total next waits [] = (next ≡ total) × ((i : ℕ) → waits i ≡ false)
IsSchedule total next waits (spawns ∷ events) =
    (next < total) × IsSchedule total (suc next) (update waits next true) events
IsSchedule total next waits (runs i ∷ events) =
    (waits i ≡ true) × IsSchedule total next (update waits i false) events
