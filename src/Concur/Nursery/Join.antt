-- ===== src/Concur/Nursery/Join.antt =====
-- Joining all tasks of a nursery (host/concur/fx_task_nursery.c).
use fxlang.Prelude.{
  ℕ, zero, suc, ◌+◌, ◌≤◌, ◌<◌, ◌≡◌, refl, ◌∙◌, ◌≢◌, inl, inr, true, false, Option, some, List,
  arith, Bool-cases, dec_lt,
}
use fxlang.Concur.Nursery.{
  Nursery, Call, Wait, no_clock, exited, timed_out, refused, nursery_ok, is_pending, pending_below,
  fx_nursery_pending, perform_all, mark_joined, fx_nursery_join_one, join_loop, join_all,
  join_all_when,
}
use fxlang.Concur.Nursery.Grows.{IsValid, Grows, Grows-refl, Grows-trans, joined-Grows}

-- What a join that ends well leaves.
abbrev Settles : Option (ℕ × Nursery) → Nursery → Type 0
Settles o n =
    (m : Nursery) × (o ≡ some (nursery_ok, m)) × Grows 0 n m × (pending_below m.slots m.count ≡ 0)

settles :
    {o o' : Option (ℕ × Nursery)} {n n' : Nursery}
    → o ≡ o'
    → Grows 0 n n'
    → Settles o' n'
    → Settles o n
settles e g (m, e', g', settled) = (m, e ∙ e', Grows-trans g g', settled)

-- A wait without a timeout for a task that ends.
pub untimed_one :
    (i : ℕ) (n : Nursery) (cs : List Call) (w : Wait)
    → w ≢ timed_out
    → fx_nursery_join_one i n false cs w ≡ some (nursery_ok, mark_joined i (perform_all cs n))
unfolding fx_nursery_join_one
untimed_one i n cs no_clock ends = refl
untimed_one i n cs exited ends = refl
untimed_one i n cs refused ends = refl
untimed_one i n cs timed_out ends = absurd (ends refl)

-- With more fuel than slots to visit, all slots before `i` settled, and waits for tasks that end, the
-- loop returns FX_NURSERY_OK with none pending.
join_loop-Settles :
    (others : ℕ → List Call) (waits : ℕ → Wait) (fuel i : ℕ) (n : Nursery)
    → IsValid n
    → i ≤ n.count
    → pending_below n.slots i ≡ 0
    → n.capacity < fuel + i
    → ((j : ℕ) → j < n.capacity → waits j ≢ timed_out)
    → Settles (join_loop false others waits fuel i n) n
unfolding join_loop
join_loop-Settles others waits zero i n valid below settled enough ends =
    absurd (omega (arith, valid.fits))
join_loop-Settles others waits (suc fuel) i n valid below settled enough ends =
    elim (dec_lt i n.count) [
      | no done ↦
          settles {o' = some (nursery_ok, n)} (ground arith) (Grows-refl n valid)
            (n, refl, Grows-refl n valid, ground arith)
      | yes more ↦ elim (Bool-cases (is_pending n.slots i)) [
        | inr skipped ↦
            settles {o' = join_loop false others waits fuel (suc i) n} (ground arith)
              (Grows-refl n valid)
              (join_loop-Settles others waits fuel (suc i) n valid more (ground arith) (omega arith)
                ends)
        | inl waited ↦
            let (g, now) = joined-Grows (others i) i n valid more settled in
            let next : Nursery = mark_joined i (perform_all (others i) n) in
            let one =
              untimed_one i n (others i) (waits i) (ends i (omega (arith, valid.fits, more))) in
            settles {o' = join_loop false others waits fuel (suc i) next} (ground (arith, one)) g (
              join_loop-Settles others waits fuel (suc i) next g.valid (omega (arith, g.more)) now
                (omega (arith, g.capacity_same))
                (λ j below. ends j (omega (arith, below, g.capacity_same))))
      ]
    ]

-- Whatever other threads spawn and cancel while it waits, `fx_nursery_join_all` on a live, valid
-- nursery returns FX_NURSERY_OK if every task that it waits for ends; the nursery is then still live
-- and valid, and no task is pending.
pub join_all_when_settles :
    (others : ℕ → List Call) (waits : ℕ → Wait) (n : Nursery)
    → IsValid n
    → n.live ≡ true
    → ((i : ℕ) → i < n.capacity → waits i ≢ timed_out)
    → (m : Nursery) × (join_all_when others waits n ≡ some (nursery_ok, m))
      × IsValid m
      × (m.live ≡ true)
      × (fx_nursery_pending (some m) ≡ 0)
unfolding join_all_when
join_all_when_settles others waits n valid live ends =
    let (m, e, g, settled) =
      join_loop-Settles others waits (suc n.capacity) 0 n valid (omega arith) refl (omega arith)
        ends in
    (m, ground arith, g.valid, g.live_same ∙ live, settled)

pub join_all_settles :
    (others : ℕ → List Call) (n : Nursery)
    → IsValid n
    → n.live ≡ true
    → (m : Nursery) × (join_all others n ≡ some (nursery_ok, m))
      × IsValid m
      × (m.live ≡ true)
      × (fx_nursery_pending (some m) ≡ 0)
unfolding join_all
join_all_settles others n valid live =
    join_all_when_settles others (λ i. exited) n valid live (λ i below e. cc)
