-- ===== src/Concur/Bridge/Schedule/Order.antt =====
-- The orders of the events of a batch of store tasks (host/concur/fx_async_bridge.c), compared.
use mathlib.Core.Path.{fun_ext}
use mathlib.Core.Option.{some-injective}
use fxlang.Prelude.{
  ℕ, zero, suc, ◌-◌, ◌≡◌, ◌≤◌, ◌<◌, ◌∙◌, refl, sym, ap, subst, Bool, true, false, ◌⊎◌, inl, inr,
  Option, some, List, [], ◌∷◌, ◌==◌, if◌then◌else◌, Ptr, arith, update, ℕ_discrete,
}
use fxlang.Concur.Nursery.{Nursery}
use fxlang.Concur.Nursery.Grows.{IsValid}
use fxlang.Concur.Bridge.{World}
use fxlang.Concur.Bridge.Tasks.{Job, IsJob, added, spawned, stored, run_task-stored}
use fxlang.Concur.Bridge.Schedule.{Event, spawns, runs, carry_out, IsSchedule}
use fxlang.Concur.Bridge.Schedule.Underway.{InBatch, Underway}
use fxlang.Concur.Bridge.Schedule.Spawns.{Underway-spawned}
use fxlang.Concur.Bridge.Schedule.Runs.{Underway-stored}
use fxlang.Concur.Bridge.Schedule.Delivery.{
  IsStorable, IsStored, Finished, carry_out-Finished, carry_out-delivers, carry_out-spawns,
  carry_out-runs, Underway-start,
}

-- The nursery once `k` more jobs from `next` on are spawned.
abbrev pub filled : (job : ℕ → Job) → (k next : ℕ) → Nursery → Nursery
filled job zero next n = n
filled job (suc k) next n = filled job k (suc next) (added n (job next))

-- What a schedule does to the nurseries, the channels and the mailboxes.
abbrev pub Framed :
    (n_h : Ptr) → (job : ℕ → Job) → (total next : ℕ) → Nursery → World → Option World → Type 0
Framed n_h job total next n w o =
    (left : World) × (o ≡ some left)
    × ((x : Ptr)
        → left.nurseries x
          ≡ (if n_h == x then some (filled job (total - next) next n) else w.nurseries x))
    × (left.chans ≡ w.chans)
    × (left.boxes ≡ w.boxes)

filled_all :
    (job : ℕ → Job) (total next : ℕ) (n : Nursery)
    → next ≡ total
    → filled job (total - next) next n ≡ n
filled_all job total next n e =
    ap (λ k. filled job k next n) {x = total - next} {y = 0} (omega (arith, e))

filled_more :
    (job : ℕ → Job) (total next : ℕ) (n : Nursery)
    → next < total
    → filled job (total - next) next n
      ≡ filled job (total - suc next) (suc next) (added n (job next))
filled_more job total next n more =
    ap (λ k. filled job k next n) {x = total - next} {y = suc (total - suc next)}
      (omega (arith, more))

framed_end :
    (n_h : Ptr) (n m : Nursery) (w : World) (x : Ptr)
    → w.nurseries n_h ≡ some n
    → m ≡ n
    → w.nurseries x ≡ (if n_h == x then some m else w.nurseries x)
framed_end n_h n m w x here same = elim (ℕ_discrete n_h x) [
  | yes e ↦ ground (arith, subst (λ y. w.nurseries y ≡ some n) e here)
  | no e ↦ ground (arith, e)
]

framed_more :
    (n_h : Ptr) (n m m' : Nursery) (j : Job) (w left : World) (x : Ptr)
    → m ≡ m'
    → left.nurseries x ≡ (if n_h == x then some m' else (spawned n_h n j w).nurseries x)
    → left.nurseries x ≡ (if n_h == x then some m else w.nurseries x)
framed_more n_h n m m' j w left x same e = ground (arith, same, e)

module _ (n_h : Ptr) (job : ℕ → Job) (base total : ℕ)
    (is_job : (i : ℕ) → InBatch base total i → IsJob (job i))
    (ats : (i j : ℕ)
      → InBatch base total i
      → InBatch base total j
      → (job i).at ≡ (job j).at
      → i ≡ j)
    (slots : (i j : ℕ)
      → InBatch base total i
      → InBatch base total j
      → (job i).slot ≡ (job j).slot
      → i ≡ j)
    (handle : 0 < n_h) (start : World) where
  pub carry_out-Framed :
      (events : List Event) (next : ℕ) (waits : ℕ → Bool) (n : Nursery) (w : World)
      → Underway n_h job base total start next waits n w
      → IsSchedule total next waits events
      → Framed n_h job total next n w (carry_out n_h job next events w)
  carry_out-Framed [] next waits n w u (over, idle) =
      (w, refl, (λ x. framed_end n_h n _ w x u.here (filled_all job total next n over)), refl, refl)
  carry_out-Framed (spawns ∷ events) next waits n w u (more, rest) =
      let run =
        carry_out-spawns n_h job next events n w u.here u.live (omega (arith, u.counted, u.room))
          handle (is_job next (u.from, more)) in
      let (left, e, nurseries, chans, boxes) =
        carry_out-Framed events (suc next) (update waits next true) (added n (job next))
          (spawned n_h n (job next) w)
          (Underway-spawned n_h job base total is_job ats slots handle start next waits n w u more)
          rest in
      (
        left,
        run ∙ e,
        (λ x.
            framed_more n_h n _ _ (job next) w left x (filled_more job total next n more)
              (nurseries x)),
        chans,
        boxes,
      )
  carry_out-Framed (runs i ∷ events) next waits n w u (waiting, rest) =
      let (low, high) = u.spawned_only i waiting in
      let in_batch : InBatch base total i = (low, omega (arith, u.up_to)) in
      let (at, slot) = is_job i in_batch in
      let (old, there) = u.there i in_batch in
      let run =
        carry_out-runs n_h job next i events w (stored (job i) w)
          (run_task-stored n_h i (job i) w old (u.queued i waiting) slot there) in
      let (left, e, nurseries, chans, boxes) =
        carry_out-Framed events next (update waits i false) n (stored (job i) w)
          (Underway-stored n_h job base total is_job ats slots handle start next waits n w u i
            waiting)
          rest in
      (left, run ∙ e, nurseries, chans, boxes)

-- What two runs of the same batch leave in one table.
agree :
    {A : Type 0} (in_batch : Ptr → Type 0) (t t' start : Ptr → A)
    → ((p : Ptr) → in_batch p ⊎ (t p ≡ start p))
    → ((p : Ptr) → in_batch p ⊎ (t' p ≡ start p))
    → ((p : Ptr) → in_batch p → t p ≡ t' p)
    → t ≡ t'
agree in_batch t t' start kept kept' done = fun_ext (λ p. elim (kept p) [
  | inl there ↦ done p there
  | inr e ↦ elim (kept' p) [ inl there ↦ done p there | inr e' ↦ e ∙ sym e' ]
])

World-eq :
    (a b : World)
    → a.slots ≡ b.slots
    → a.chans ≡ b.chans
    → a.boxes ≡ b.boxes
    → a.nurseries ≡ b.nurseries
    → a.args ≡ b.args
    → a ≡ b
World-eq a b s c x n r =
    ap (λ t. record a { slots = t }) s
    ∙ ap (λ t. record b { chans = t; boxes = a.boxes; nurseries = a.nurseries; args = a.args }) c
    ∙ ap (λ t. record b { boxes = t; nurseries = a.nurseries; args = a.args }) x
    ∙ ap (λ t. record b { nurseries = t; args = a.args }) n
    ∙ ap (λ t. record b { args = t }) r

-- Two runs that finish the batch from the same state leave the same state.
same_world :
    (n_h : Ptr) (job : ℕ → Job) (base total : ℕ) (n : Nursery) (w : World) (o o' : Option World)
    (a : Finished n_h job base total w o) (b : Finished n_h job base total w o')
    → Framed n_h job total base n w o
    → Framed n_h job total base n w o'
    → a.0 ≡ b.0
same_world n_h job base total n w o o' (left, e, done, slots, args)
      (left', e', done', slots', args') (m, f, nurseries, chans, boxes)
      (m', f', nurseries', chans', boxes') =
    let here : m ≡ left = some-injective _ _ (sym f ∙ e) in
    let here' : m' ≡ left' = some-injective _ _ (sym f' ∙ e') in
    World-eq left left'
      (agree (λ s. (i : ℕ) × InBatch base total i × ((job i).slot ≡ s)) left.slots left'.slots
        w.slots slots slots'
        (λ s (i, (low, high), at). ground (arith, at, done i low high, done' i low high)))
      (ap (λ v. v.chans) (sym here) ∙ chans ∙ sym chans' ∙ ap (λ v. v.chans) here')
      (ap (λ v. v.boxes) (sym here) ∙ boxes ∙ sym boxes' ∙ ap (λ v. v.boxes) here')
      (ap (λ v. v.nurseries) (sym here)
        ∙ fun_ext (λ x. nurseries x ∙ sym (nurseries' x))
        ∙ ap (λ v. v.nurseries) here')
      (agree (λ p. (i : ℕ) × InBatch base total i × ((job i).at ≡ p)) left.args left'.args w.args
        args args'
        (λ p (i, (low, high), at). ground (arith, at, done i low high, done' i low high)))

-- For a live nursery with room for the batch, jobs for its free slots up to `total` with distinct
-- FxAsyncSlots that exist, distinct addresses from malloc and values of int32_t, when every thread
-- is created: in every order in which each job is spawned once and each task runs once, to its end,
-- at any time after its spawn, every spawn returns FX_NURSERY_OK and every task ends; all these
-- orders leave one and the same state, in which `fx_async_slot_get` reads every job's value, every
-- argument is freed, and no other FxAsyncSlot and no other argument has been touched.
pub any_order_delivers :
    (n_h : Ptr) (job : ℕ → Job) (n : Nursery) (total : ℕ) (events events' : List Event) (w : World)
    → w.nurseries n_h ≡ some n
    → IsValid n
    → n.live ≡ true
    → n.count ≤ total
    → total ≤ n.capacity
    → 0 < n_h
    → ((i : ℕ) → InBatch n.count total i → IsStorable w (job i))
    → ((i j : ℕ)
        → InBatch n.count total i
        → InBatch n.count total j
        → (job i).at ≡ (job j).at
        → i ≡ j)
    → ((i j : ℕ)
        → InBatch n.count total i
        → InBatch n.count total j
        → (job i).slot ≡ (job j).slot
        → i ≡ j)
    → IsSchedule total n.count (λ i. false) events
    → IsSchedule total n.count (λ i. false) events'
    → (left : World) × (carry_out n_h job n.count events w ≡ some left)
      × (carry_out n_h job n.count events' w ≡ some left)
      × ((i : ℕ) → (i < n.count) ⊎ (total ≤ i) ⊎ IsStored left (job i))
      × ((s : Ptr)
          → ((i : ℕ) × InBatch n.count total i × ((job i).slot ≡ s)) ⊎ (left.slots s ≡ w.slots s))
      × ((p : Ptr)
          → ((i : ℕ) × InBatch n.count total i × ((job i).at ≡ p)) ⊎ (left.args p ≡ w.args p))
any_order_delivers n_h job n total events events' w e valid live below room handle storable ats
      slots schedule schedule' =
    let u = Underway-start n_h job n total w e valid live below room storable in
    let is_job = λ (i : ℕ) (h : InBatch n.count total i). (storable i h).0 in
    let finish = carry_out-Finished n_h job n.count total is_job ats slots handle w in
    let frame = carry_out-Framed n_h job n.count total is_job ats slots handle w in
    let a = finish events n.count (λ i. false) n w u schedule in
    let b = finish events' n.count (λ i. false) n w u schedule' in
    let same : a.0 ≡ b.0 =
      same_world n_h job n.count total n w _ _ a b
        (frame events n.count (λ i. false) n w u schedule)
        (frame events' n.count (λ i. false) n w u schedule') in
    let (left, run, stored_all, slots_kept, args_kept) =
      carry_out-delivers n_h job n total events w e valid live below room handle storable ats slots
        schedule in
    let first : left ≡ a.0 = some-injective _ _ (sym run ∙ a.1) in
    (left, run, b.1 ∙ ap some (sym (first ∙ same)), stored_all, slots_kept, args_kept)
