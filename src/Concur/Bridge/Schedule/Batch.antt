-- ===== src/Concur/Bridge/Schedule/Batch.antt =====
-- A batch of store tasks with the join behind it (host/concur/fx_async_bridge.c):
-- `fx_async_nursery_spawn_add`, the tasks in any order, `fx_async_nursery_join_all`,
-- `fx_async_slot_get`.
use mathlib.Core.Option.{some-injective}
use fxlang.Prelude.{
  ℕ, zero, suc, ◌+◌, ◌-◌, ◌≡◌, ◌≤◌, ◌<◌, ◌∙◌, refl, sym, ap, true, false, ◌⊎◌, Option, some, List,
  [], Ptr, ◌==◌, if◌then◌else◌, arith, update, length-set,
}
use fxlang.Concur.Nursery.{Nursery, Call, nursery_ok}
use fxlang.Concur.Nursery.Grows.{IsValid}
use fxlang.Concur.Nursery.Join.{join_all_settles}
use fxlang.Concur.Bridge.{World, fx_async_slot_get}
use fxlang.Concur.Bridge.Objects.{fx_async_nursery_join_all, fx_async_nursery_pending}
use fxlang.Concur.Bridge.Tasks.{Job, added, task_of}
use fxlang.Concur.Bridge.Schedule.{Event, carry_out, IsSchedule}
use fxlang.Concur.Bridge.Schedule.Underway.{InBatch}
use fxlang.Concur.Bridge.Schedule.Delivery.{IsStorable, IsStored, Underway-start}
use fxlang.Concur.Bridge.Schedule.Order.{filled, carry_out-Framed, any_order_delivers}

filled-IsValid :
    (job : ℕ → Job) (k next : ℕ) (n : Nursery)
    → IsValid n
    → n.count + k ≤ n.capacity
    → IsValid (filled job k next n)
filled-IsValid job zero next n valid room = valid
filled-IsValid job (suc k) next n valid room =
    filled-IsValid job k (suc next) (added n (job next))
      (record {
        whole = length-set n.slots n.count (task_of (job next)) ∙ valid.whole;
        bounded = valid.bounded;
        fits = omega (arith, room);
      })
      (omega (arith, room))

filled-live : (job : ℕ → Job) (k next : ℕ) (n : Nursery) → (filled job k next n).live ≡ n.live
filled-live job zero next n = refl
filled-live job (suc k) next n = filled-live job k (suc next) (added n (job next))

at_itself : (p : Ptr) (a b : Option Nursery) → (if p == p then a else b) ≡ a
at_itself p a b = ground arith

-- What the join leaves.
abbrev with_nursery : World → Ptr → Nursery → World
with_nursery w n_h m = record w { nurseries = update w.nurseries n_h (some m) }

joined-settles :
    (others : ℕ → List Call) (n_h : Ptr) (n : Nursery) (w : World)
    → w.nurseries n_h ≡ some n
    → 0 < n_h
    → IsValid n
    → n.live ≡ true
    → (m : Nursery) × (fx_async_nursery_join_all others n_h w
        ≡ some (nursery_ok, with_nursery w n_h m))
      × (fx_async_nursery_pending n_h (with_nursery w n_h m) ≡ 0)
unfolding fx_async_nursery_join_all fx_async_nursery_pending
joined-settles others n_h n w here handle valid live =
    let (m, e, valid_m, live_m, settled) = join_all_settles others n valid live in
    (m, ground (arith, here, e), ground (arith, settled))

-- For a live nursery with room for the batch that no other thread uses meanwhile, jobs for its free
-- slots up to `total` with distinct FxAsyncSlots that exist, distinct addresses from malloc and values
-- of int32_t, when every thread is created: in every order in which each job is spawned once and each
-- task runs once, to its end, at any time after its spawn, every spawn returns FX_NURSERY_OK and every
-- task ends; all these orders leave one and the same state. Once all of them have run,
-- `fx_async_nursery_join_all` returns FX_NURSERY_OK with no task pending, `fx_async_slot_get` reads
-- every job's value, every argument is freed, and no other FxAsyncSlot and no other argument has been
-- touched.
pub batch_delivers :
    (n_h : Ptr) (job : ℕ → Job) (n : Nursery) (total : ℕ) (events events' : List Event) (w : World)
    → w.nurseries n_h ≡ some n
    → IsValid n
    → n.live ≡ true
    → n.count ≤ total
    → total ≤ n.capacity
    → 0 < n_h
    → ((i : ℕ) → InBatch n.count total i → IsStorable w (job i))
    → ((i j : ℕ)
        → InBatch n.count total i
        → InBatch n.count total j
        → (job i).at ≡ (job j).at
        → i ≡ j)
    → ((i j : ℕ)
        → InBatch n.count total i
        → InBatch n.count total j
        → (job i).slot ≡ (job j).slot
        → i ≡ j)
    → IsSchedule total n.count (λ i. false) events
    → IsSchedule total n.count (λ i. false) events'
    → (left : World) × (after : World) × (carry_out n_h job n.count events w ≡ some left)
      × (carry_out n_h job n.count events' w ≡ some left)
      × (fx_async_nursery_join_all (λ i. []) n_h left ≡ some (nursery_ok, after))
      × (fx_async_nursery_pending n_h after ≡ 0)
      × ((i : ℕ) → (i < n.count) ⊎ (total ≤ i) ⊎ IsStored after (job i))
      × ((s : Ptr)
          → ((i : ℕ) × InBatch n.count total i × ((job i).slot ≡ s)) ⊎ (after.slots s ≡ w.slots s))
      × ((p : Ptr)
          → ((i : ℕ) × InBatch n.count total i × ((job i).at ≡ p)) ⊎ (after.args p ≡ w.args p))
unfolding fx_async_slot_get
batch_delivers n_h job n total events events' w e valid live below room handle storable ats slots
      schedule schedule' =
    let u = Underway-start n_h job n total w e valid live below room storable in
    let is_job = λ (i : ℕ) (h : InBatch n.count total i). (storable i h).0 in
    let (left, run, run', stored_all, slots_kept, args_kept) =
      any_order_delivers n_h job n total events events' w e valid live below room handle storable
        ats slots schedule schedule' in
    let (framed, f, nurseries, chans, boxes) =
      carry_out-Framed n_h job n.count total is_job ats slots handle w events n.count (λ i. false) n
        w u schedule in
    let same : framed ≡ left = some-injective _ _ (sym f ∙ run) in
    let full : Nursery = filled job (total - n.count) n.count n in
    let here : left.nurseries n_h ≡ some full =
      ap (λ v. v.nurseries n_h) (sym same)
      ∙ nurseries n_h
      ∙ at_itself n_h (some full) (w.nurseries n_h) in
    let (m, joined, settled) =
      joined-settles (λ i. []) n_h full left here handle
        (filled-IsValid job (total - n.count) n.count n valid (omega (arith, below, room)))
        (filled-live job (total - n.count) n.count n ∙ live) in
    (left, with_nursery left n_h m, run, run', joined, settled, stored_all, slots_kept, args_kept)
