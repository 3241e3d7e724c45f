-- ===== src/Concur/Nursery/Timed.antt =====
-- Joining all tasks of a nursery with a deadline (host/concur/fx_task_nursery.c).
use fxlang.Prelude.{
  ℕ, zero, suc, ◌+◌, ◌≤◌, ◌<◌, ◌≡◌, refl, ◌∙◌, ◌≢◌, ◌⊎◌, inl, inr, true, Option, some, List, arith,
  Bool-cases, dec_lt,
}
use fxlang.Concur.Nursery.{
  Nursery, Call, Wait, no_clock, exited, timed_out, refused, nursery_err, nursery_timeout,
  join_all_timeout, nursery_ok, is_pending, pending_below, fx_nursery_pending, perform_all,
  mark_joined, fx_nursery_join_one, join_loop,
}
use fxlang.Concur.Nursery.Grows.{
  IsValid, Grows, Grows-refl, Grows-trans, joined-Grows, perform_all-Grows,
}

-- What a timed join leaves: with FX_NURSERY_OK, no task is pending.
abbrev Leaves : Option (ℕ × Nursery) → Nursery → Type 0
Leaves o n =
    (rc : ℕ) × (m : Nursery) × (o ≡ some (rc, m))
    × Grows 0 n m
    × ((rc ≢ nursery_ok) ⊎ (pending_below m.slots m.count ≡ 0))

leaves :
    {o o' : Option (ℕ × Nursery)} {n n' : Nursery}
    → o ≡ o'
    → Grows 0 n n'
    → Leaves o' n'
    → Leaves o n
leaves e g (rc, m, e', g', settled) = (rc, m, e ∙ e', Grows-trans g g', settled)

-- One wait: the slot is joined, or the call ends with an error.
wait_cases :
    (i : ℕ) (n : Nursery) (cs : List Call) (w : Wait)
    → (fx_nursery_join_one i n true cs w ≡ some (nursery_ok, mark_joined i (perform_all cs n)))
      ⊎ ((rc : ℕ) × (rc ≢ nursery_ok)
          × (fx_nursery_join_one i n true cs w ≡ some (rc, perform_all cs n)))
unfolding fx_nursery_join_one
wait_cases i n cs no_clock = inr (nursery_err, (λ e. omega (arith, e)), refl)
wait_cases i n cs exited = inl refl
wait_cases i n cs timed_out = inr (nursery_timeout, (λ e. omega (arith, e)), refl)
wait_cases i n cs refused = inr (nursery_err, (λ e. omega (arith, e)), refl)

-- With more fuel than slots to visit, and all slots before `i` settled, the timed loop returns.
join_loop-Leaves :
    (others : ℕ → List Call) (waits : ℕ → Wait) (fuel i : ℕ) (n : Nursery)
    → IsValid n
    → i ≤ n.count
    → pending_below n.slots i ≡ 0
    → n.capacity < fuel + i
    → Leaves (join_loop true others waits fuel i n) n
unfolding join_loop
join_loop-Leaves others waits zero i n valid below settled enough =
    absurd (omega (arith, valid.fits))
join_loop-Leaves others waits (suc fuel) i n valid below settled enough = elim (dec_lt i n.count) [
  | no done ↦
      leaves {o' = some (nursery_ok, n)} (ground arith) (Grows-refl n valid)
        (nursery_ok, n, refl, Grows-refl n valid, inr (ground arith))
  | yes more ↦ elim (Bool-cases (is_pending n.slots i)) [
    | inr skipped ↦
        leaves {o' = join_loop true others waits fuel (suc i) n} (ground arith) (Grows-refl n valid)
          (join_loop-Leaves others waits fuel (suc i) n valid more (ground arith) (omega arith))
    | inl waited ↦ elim (wait_cases i n (others i) (waits i)) [
      | inl joined ↦
          let (g, now) = joined-Grows (others i) i n valid more settled in
          let next : Nursery = mark_joined i (perform_all (others i) n) in
          leaves {o' = join_loop true others waits fuel (suc i) next} (ground (arith, joined)) g (
            join_loop-Leaves others waits fuel (suc i) next g.valid (omega (arith, g.more)) now
              (omega (arith, g.capacity_same)))
      | inr (rc, failed, e) ↦
          let next : Nursery = perform_all (others i) n in
          let g = perform_all-Grows (others i) 0 n valid (omega arith) in
          leaves {o' = some (rc, next)} (ground (arith, e, failed)) g
            (rc, next, refl, Grows-refl next g.valid, inl failed)
    ]
  ]
]

-- Whatever other threads spawn and cancel meanwhile and however the waits end,
-- `fx_nursery_join_all_timeout` on a live, valid nursery returns and leaves it live and valid; with
-- FX_NURSERY_OK no task is pending.
pub join_all_timeout_returns :
    (others : ℕ → List Call) (waits : ℕ → Wait) (n : Nursery)
    → IsValid n
    → n.live ≡ true
    → (rc : ℕ) × (m : Nursery) × (join_all_timeout others waits n ≡ some (rc, m))
      × IsValid m
      × (m.live ≡ true)
      × ((rc ≢ nursery_ok) ⊎ (fx_nursery_pending (some m) ≡ 0))
unfolding join_all_timeout
join_all_timeout_returns others waits n valid live =
    let (rc, m, e, g, settled) =
      join_loop-Leaves others waits (suc n.capacity) 0 n valid (omega arith) refl (omega arith) in
    (rc, m, ground arith, g.valid, g.live_same ∙ live, settled)
