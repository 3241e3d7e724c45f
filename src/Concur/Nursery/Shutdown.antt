-- ===== src/Concur/Nursery/Shutdown.antt =====
-- The end of a nursery (host/concur/fx_task_nursery.c, `fx_nursery_shutdown`, `fx_nursery_destroy`).
use mathlib.Core.Option.{some-injective}
use fxlang.Prelude.{
  ℕ, suc, ◌<◌, ◌≡◌, refl, sym, ap, subst, ◌∙◌, ◌≢◌, true, false, some, List, [], ◌∷◌, arith, inl,
  inr, Bool-cases, get_or-set_self, Ptr, set,
}
use fxlang.Concur.Nursery.{
  Nursery, Slot, Call, spawns, nursery_ok, fx_nursery_pending, blank, perform, perform_all,
  join_all, shutdown_when, shutdown, destroy, Wait, exited, timed_out,
}
use fxlang.Concur.Nursery.Grows.{IsValid, perform_all-Grows, pending-set}
use fxlang.Concur.Nursery.Join.{join_all_settles, join_all_when_settles}

pub shutdown_after_joins :
    (before : List Call) (others : ℕ → List Call) (after : List Call) (n m : Nursery)
    → n.live ≡ true
    → join_all others (perform_all before (record n { cancel = true })) ≡ some (nursery_ok, m)
    → shutdown before others after n
      ≡ some (nursery_ok, record (perform_all after m) { live = false })
unfolding shutdown
shutdown_after_joins before others after n m live e = ground arith

-- The joins of a shutdown.
pub joins_settle :
    (before : List Call) (others : ℕ → List Call) (n : Nursery)
    → IsValid n
    → n.live ≡ true
    → (m : Nursery) × (join_all others (perform_all before (record n { cancel = true }))
        ≡ some (nursery_ok, m))
      × IsValid m
      × (m.live ≡ true)
      × (fx_nursery_pending (some m) ≡ 0)
joins_settle before others n valid live =
    let start : Nursery = record n { cancel = true } in
    let start_valid : IsValid start = record {
      whole = valid.whole;
      bounded = valid.bounded;
      fits = valid.fits;
    } in
    let g = perform_all-Grows before 0 start start_valid (omega arith) in
    join_all_settles others (perform_all before start) g.valid (g.live_same ∙ live)

-- If every task that is waited for ends and no other thread makes a call between the last join and the
-- end, `fx_nursery_shutdown` on a live, valid nursery returns FX_NURSERY_OK and leaves it dead with no
-- task pending, whatever tasks other threads spawn and however often they request a cancel before and
-- during the joins.
pub shutdown_settles :
    (before : List Call) (others : ℕ → List Call) (waits : ℕ → Wait) (n : Nursery)
    → IsValid n
    → n.live ≡ true
    → ((i : ℕ) → i < n.capacity → waits i ≢ timed_out)
    → (m : Nursery) × (shutdown_when before others waits [] n ≡ some (nursery_ok, m))
      × (m.live ≡ false)
      × (fx_nursery_pending (some m) ≡ 0)
unfolding shutdown_when
shutdown_settles before others waits n valid live ends =
    let start : Nursery = record n { cancel = true } in
    let start_valid : IsValid start = record {
      whole = valid.whole;
      bounded = valid.bounded;
      fits = valid.fits;
    } in
    let g = perform_all-Grows before 0 start start_valid (omega arith) in
    let (m, e, valid_m, live_m, settled) =
      join_all_when_settles others waits (perform_all before start) g.valid (g.live_same ∙ live)
        (λ i below. ends i (omega (arith, below, g.capacity_same))) in
    (record m { live = false }, ground (arith, live, e), refl, settled)

-- Where every task that is waited for ends.
all_settle :
    (before : List Call) (others : ℕ → List Call) (n : Nursery)
    → IsValid n
    → n.live ≡ true
    → (m : Nursery) × (shutdown before others [] n ≡ some (nursery_ok, m))
      × (m.live ≡ false)
      × (fx_nursery_pending (some m) ≡ 0)
unfolding shutdown
all_settle before others n valid live =
    shutdown_settles before others (λ i. exited) n valid live (λ i below e. cc)

-- If no other thread makes a call between the last join and the end, no task is pending when
-- `fx_nursery_destroy` frees the slots of a valid nursery that is live, or that is dead with no
-- task pending.
pub destroy_settles :
    (before : List Call) (others : ℕ → List Call) (n : Nursery)
    → IsValid n
    → (n.live ≡ false → fx_nursery_pending (some n) ≡ 0)
    → (m : Nursery) × (destroy before others [] n ≡ some m) × (fx_nursery_pending (some m) ≡ 0)
unfolding destroy
destroy_settles before others n valid dead = elim (Bool-cases n.live) [
  | inl live ↦
      let (m, e, dead_m, settled) = all_settle before others n valid live in
      (m, ground arith, settled)
  | inr gone ↦ (n, ground arith, dead gone)
]

spawned_pending :
    (m : Nursery) (fn arg : Ptr)
    → IsValid m
    → m.live ≡ true
    → m.count < m.capacity
    → fn ≢ 0
    → fx_nursery_pending (some m) ≡ 0
    → fx_nursery_pending (some (perform (spawns fn arg true) m)) ≡ 1
spawned_pending m fn arg valid live room some_fn settled =
    ap (λ n. fx_nursery_pending (some n))
      {y = record m { slots = set m.slots m.count slot; count = suc m.count }} spawned
    ∙ ground (
      arith,
      pending-set m.slots m.count m.count slot (omega arith),
      get_or-set_self m.slots m.count slot blank (omega (arith, valid.whole)),
    )
  where
    slot : Slot
    slot = record { fn = fn; arg = arg; used = true; joined = false }

    spawned :
        perform (spawns fn arg true) m
        ≡ record m { slots = set m.slots m.count slot; count = suc m.count }
    spawned = ground arith

-- A task that another thread spawns after the joins of a shutdown of a live, valid nursery and
-- before its end, when a slot is free, is still pending in the nursery that `fx_nursery_shutdown`
-- leaves dead.
pub shutdown_race :
    (before : List Call) (others : ℕ → List Call) (n m : Nursery) (fn arg : Ptr)
    → IsValid n
    → n.live ≡ true
    → join_all others (perform_all before (record n { cancel = true })) ≡ some (nursery_ok, m)
    → m.count < m.capacity
    → fn ≢ 0
    → (left : Nursery) × (shutdown before others (spawns fn arg true ∷ []) n
        ≡ some (nursery_ok, left))
      × (left.live ≡ false)
      × (fx_nursery_pending (some left) ≡ 1)
shutdown_race before others n m fn arg valid live e room some_fn =
    let (m', e', valid', live', settled') = joins_settle before others n valid live in
    let same : m' ≡ m = ap (λ r. r.1) (some-injective _ _ (sym e' ∙ e)) in
    let settled : fx_nursery_pending (some m) ≡ 0 =
      subst (λ m. fx_nursery_pending (some m) ≡ 0) same settled' in
    let live_m : m.live ≡ true = subst (λ m. m.live ≡ true) same live' in
    let valid_m : IsValid m = subst IsValid same valid' in
    (
      record (perform_all (spawns fn arg true ∷ []) m) { live = false },
      shutdown_after_joins before others _ n m live e,
      refl,
      spawned_pending m fn arg valid_m live_m room some_fn settled,
    )
