-- ===== src/Concur/Bridge/Schedule/Underway.antt =====
-- The invariant of a batch of store tasks (host/concur/fx_async_bridge.c) between two events.
use fxlang.Prelude.{ℕ, ◌≡◌, ◌≤◌, ◌<◌, Bool, true, false, ◌⊎◌, some, ℤ, Ptr}
use fxlang.Concur.Nursery.{Nursery}
use fxlang.Concur.Nursery.Grows.{IsValid}
use fxlang.Concur.Bridge.{World}
use fxlang.Concur.Bridge.Tasks.{Job, IsQueued, IsDone}

-- A slot of the batch, which begins with `base`.
abbrev pub InBatch : (base total i : ℕ) → Type 0
InBatch base total i = (base ≤ i) × (i < total)

module _ (n_h : Ptr) (job : ℕ → Job) (base total : ℕ) where
  -- What holds between two events: the tasks that wait are queued, those that ran are done, and
  -- nothing else is touched.
  pub record Underway (start : World) (next : ℕ) (waits : ℕ → Bool) (n : Nursery) (w : World)
      : Type 0 where
    pub here : w.nurseries n_h ≡ some n
    pub valid : IsValid n
    pub live : n.live ≡ true
    pub counted : n.count ≡ next
    pub room : total ≤ n.capacity
    pub from : base ≤ next
    pub up_to : next ≤ total
    pub spawned_only : (i : ℕ) → waits i ≡ true → (base ≤ i) × (i < next)
    pub queued : (i : ℕ) → waits i ≡ true → IsQueued n_h w i (job i)
    pub done : (i : ℕ) → base ≤ i → i < next → waits i ≡ false → IsDone w (job i)
    pub there : (i : ℕ) → InBatch base total i → (old : ℤ) × (w.slots (job i).slot ≡ some old)
    pub same_slots :
        (s : Ptr)
        → ((i : ℕ) × InBatch base total i × ((job i).slot ≡ s)) ⊎ (w.slots s ≡ start.slots s)
    pub same_args :
        (p : Ptr) → ((i : ℕ) × InBatch base total i × ((job i).at ≡ p)) ⊎ (w.args p ≡ start.args p)
