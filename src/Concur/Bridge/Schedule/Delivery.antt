-- ===== src/Concur/Bridge/Schedule/Delivery.antt =====
-- A batch of store tasks from its spawns to its values (host/concur/fx_async_bridge.c), in any order in
-- which the system runs the threads.
use fxlang.Prelude.{
  ℕ, suc, ◌≡◌, ◌≤◌, ◌<◌, ◌∙◌, refl, Bool, true, false, ◌⊎◌, inl, inr, Option, none, some, List, [],
  ◌∷◌, ℤ, Ptr, arith, update, dec_lt, IsI32, to_i32_of_IsI32,
}
use fxlang.Concur.Nursery.{Nursery}
use fxlang.Concur.Nursery.Grows.{IsValid}
use fxlang.Concur.Bridge.{World, run_task, fx_async_slot_get}
use fxlang.Concur.Bridge.Tasks.{
  Job, IsJob, IsDone, added, spawned, spawn_add-spawned, stored, run_task-stored,
}
use fxlang.Concur.Bridge.Schedule.{Event, spawns, runs, carry_out, IsSchedule}
use fxlang.Concur.Bridge.Schedule.Underway.{InBatch, Underway}
use fxlang.Concur.Bridge.Schedule.Spawns.{Underway-spawned}
use fxlang.Concur.Bridge.Schedule.Runs.{Underway-stored}

-- The job's argument and its slot are addresses, the slot exists, and the value is an int32_t.
abbrev pub IsStorable : World → Job → Type 0
IsStorable w j = IsJob j × IsI32 j.value × (old : ℤ) × (w.slots j.slot ≡ some old)

-- The value is read back, and the argument is freed.
abbrev pub IsStored : World → Job → Type 0
IsStored w j = (fx_async_slot_get j.slot w ≡ j.value) × (w.args j.at ≡ none)

IsDone-IsStored : (w start : World) (j : Job) → IsStorable start j → IsDone w j → IsStored w j
unfolding fx_async_slot_get
IsDone-IsStored w start j ((at, slot), small, old, e) (value, freed) =
    let whole = to_i32_of_IsI32 j.value small in (ground (arith, value, whole), freed)

pub carry_out-spawns :
    (n_h : Ptr) (job : ℕ → Job) (next : ℕ) (events : List Event) (n : Nursery) (w : World)
    → w.nurseries n_h ≡ some n
    → n.live ≡ true
    → n.count < n.capacity
    → 0 < n_h
    → IsJob (job next)
    → carry_out n_h job next (spawns ∷ events) w
      ≡ carry_out n_h job (suc next) events (spawned n_h n (job next) w)
carry_out-spawns n_h job next events n w e live room handle is_job =
    let first = spawn_add-spawned n_h n (job next) w e live room handle is_job in
    ground (arith, first)

pub carry_out-runs :
    (n_h : Ptr) (job : ℕ → Job) (next i : ℕ) (events : List Event) (w after : World)
    → run_task n_h i w ≡ some after
    → carry_out n_h job next (runs i ∷ events) w ≡ carry_out n_h job next events after
carry_out-runs n_h job next i events w after e = ground (arith, e)

-- What a schedule leaves.
abbrev pub Finished :
    (n_h : Ptr) → (job : ℕ → Job) → (base total : ℕ) → World → Option World → Type 0
Finished n_h job base total start o =
    (left : World) × (o ≡ some left)
    × ((i : ℕ) → base ≤ i → i < total → IsDone left (job i))
    × ((s : Ptr)
        → ((i : ℕ) × InBatch base total i × ((job i).slot ≡ s)) ⊎ (left.slots s ≡ start.slots s))
    × ((p : Ptr)
        → ((i : ℕ) × InBatch base total i × ((job i).at ≡ p)) ⊎ (left.args p ≡ start.args p))

finished :
    (n_h : Ptr) (job : ℕ → Job) (base total : ℕ) (start : World) {o o' : Option World}
    → o ≡ o'
    → Finished n_h job base total start o'
    → Finished n_h job base total start o
finished n_h job base total start e (left, e', done, slots, args) =
    (left, e ∙ e', done, slots, args)

module _ (n_h : Ptr) (job : ℕ → Job) (base total : ℕ)
    (is_job : (i : ℕ) → InBatch base total i → IsJob (job i))
    (ats : (i j : ℕ)
      → InBatch base total i
      → InBatch base total j
      → (job i).at ≡ (job j).at
      → i ≡ j)
    (slots : (i j : ℕ)
      → InBatch base total i
      → InBatch base total j
      → (job i).slot ≡ (job j).slot
      → i ≡ j)
    (handle : 0 < n_h) (start : World) where
  pub carry_out-Finished :
      (events : List Event) (next : ℕ) (waits : ℕ → Bool) (n : Nursery) (w : World)
      → Underway n_h job base total start next waits n w
      → IsSchedule total next waits events
      → Finished n_h job base total start (carry_out n_h job next events w)
  carry_out-Finished [] next waits n w u (over, idle) = (
    w,
    refl,
    (λ i low high. u.done i low (omega (arith, over)) (idle i)),
    u.same_slots,
    u.same_args,
  )
  carry_out-Finished (spawns ∷ events) next waits n w u (more, rest) =
      finished n_h job base total start
        (carry_out-spawns n_h job next events n w u.here u.live (omega (arith, u.counted, u.room))
          handle (is_job next (u.from, more)))
        (carry_out-Finished events (suc next) (update waits next true) (added n (job next))
          (spawned n_h n (job next) w)
          (Underway-spawned n_h job base total is_job ats slots handle start next waits n w u more)
          rest)
  carry_out-Finished (runs i ∷ events) next waits n w u (waiting, rest) =
      let (low, high) = u.spawned_only i waiting in
      let in_batch : InBatch base total i = (low, omega (arith, u.up_to)) in
      let (at, slot) = is_job i in_batch in
      let (old, there) = u.there i in_batch in
      finished n_h job base total start
        (carry_out-runs n_h job next i events w (stored (job i) w)
          (run_task-stored n_h i (job i) w old (u.queued i waiting) slot there))
        (carry_out-Finished events next (update waits i false) n (stored (job i) w)
          (Underway-stored n_h job base total is_job ats slots handle start next waits n w u i
            waiting)
          rest)

-- Before the first event nothing waits.
pub Underway-start :
    (n_h : Ptr) (job : ℕ → Job) (n : Nursery) (total : ℕ) (w : World)
    → w.nurseries n_h ≡ some n
    → IsValid n
    → n.live ≡ true
    → n.count ≤ total
    → total ≤ n.capacity
    → ((i : ℕ) → InBatch n.count total i → IsStorable w (job i))
    → Underway n_h job n.count total w n.count (λ i. false) n w
Underway-start n_h job n total w e valid live below room storable = record {
  here = e;
  valid = valid;
  live = live;
  counted = refl;
  room = room;
  from = omega arith;
  up_to = below;
  spawned_only = λ i h. cc;
  queued = λ i h. cc;
  done = λ i low high h. absurd (omega (arith, low, high));
  there = λ i h. ((storable i h).2, (storable i h).3);
  same_slots = λ s. inr refl;
  same_args = λ p. inr refl;
}

-- For a live nursery with room for the batch, jobs for its free slots up to `total` with distinct
-- FxAsyncSlots that exist, distinct addresses from malloc and values of int32_t, when every thread is
-- created: in every order in which each job is spawned once and each task runs once, to its end, at
-- any time after its spawn, every spawn returns FX_NURSERY_OK and every task ends; and then
-- `fx_async_slot_get` reads every job's value, every argument is freed, and no other FxAsyncSlot and no
-- other argument has been touched.
pub carry_out-delivers :
    (n_h : Ptr) (job : ℕ → Job) (n : Nursery) (total : ℕ) (events : List Event) (w : World)
    → w.nurseries n_h ≡ some n
    → IsValid n
    → n.live ≡ true
    → n.count ≤ total
    → total ≤ n.capacity
    → 0 < n_h
    → ((i : ℕ) → InBatch n.count total i → IsStorable w (job i))
    → ((i j : ℕ)
        → InBatch n.count total i
        → InBatch n.count total j
        → (job i).at ≡ (job j).at
        → i ≡ j)
    → ((i j : ℕ)
        → InBatch n.count total i
        → InBatch n.count total j
        → (job i).slot ≡ (job j).slot
        → i ≡ j)
    → IsSchedule total n.count (λ i. false) events
    → (left : World) × (carry_out n_h job n.count events w ≡ some left)
      × ((i : ℕ) → (i < n.count) ⊎ (total ≤ i) ⊎ IsStored left (job i))
      × ((s : Ptr)
          → ((i : ℕ) × InBatch n.count total i × ((job i).slot ≡ s)) ⊎ (left.slots s ≡ w.slots s))
      × ((p : Ptr)
          → ((i : ℕ) × InBatch n.count total i × ((job i).at ≡ p)) ⊎ (left.args p ≡ w.args p))
carry_out-delivers n_h job n total events w e valid live below room handle storable ats slots
      schedule =
    let u = Underway-start n_h job n total w e valid live below room storable in
    let (left, run, done, same_slots, same_args) =
      carry_out-Finished n_h job n.count total (λ i h. (storable i h).0) ats slots handle w events
        n.count (λ i. false) n w u schedule in
    (
      left,
      run,
      (λ i. elim (dec_lt i n.count) [
        | yes before ↦ inl before
        | no low ↦ elim (dec_lt i total) [
          | no beyond ↦ inr (inl (omega arith))
          | yes high ↦ inr (
              inr (
                IsDone-IsStored left w (job i) (storable i (omega arith, high))
                  (done i (omega arith) high)))
        ]
      ]),
      same_slots,
      same_args,
    )
