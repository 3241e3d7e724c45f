-- ===== src/Concur/Nursery/Platforms.antt =====
-- The joins of a nursery (host/concur/fx_task_nursery.c) as they are compiled for Windows, and for a POSIX
-- system that is not Linux.
use fxlang.Prelude.{
  ℕ, zero, suc, ◌≡◌, refl, ap, ◌∙◌, inl, inr, Bool, true, false, not, Option, none, some, List, [],
  ◌∷◌, arith, leb, ◌==◌, if◌then◌else◌, Bool-cases, Option-cases, subst, ◌≢◌,
}
use fxlang.Concur.Nursery.{
  Nursery, Call, cancels, spawns, perform, Wait, no_clock, exited, timed_out, refused, nursery_ok,
  nursery_err, nursery_dead, nursery_timeout, is_pending, perform_all, mark_joined,
  fx_nursery_join_one, join_loop, join_all_when, join_all_timeout,
}

-- How `WaitForSingleObject` ends.
pub data Signal : Type 0 where
  object_0 : Signal
  wait_timeout : Signal
  wait_failed : Signal

-- `none` if the call does not come back: `WaitForSingleObject` with INFINITE never answers
-- `wait_timeout`, which stands for a task that does not end then.
unfoldable pub join_one_windows :
    (i : ℕ) → Nursery → (use_timeout : Bool) → List Call → Signal → Option (ℕ × Nursery)
join_one_windows i n timed others object_0 = some (nursery_ok, mark_joined i (perform_all others n))
join_one_windows i n true others wait_timeout = some (nursery_timeout, perform_all others n)
join_one_windows i n false others wait_timeout = none
join_one_windows i n timed others wait_failed = some (nursery_err, perform_all others n)

-- A cancel is requested before the lock is given back, and the join takes as long as it takes.
unfoldable pub join_one_portable :
    (i : ℕ) → Nursery → (use_timeout : Bool) → List Call → Wait → Option (ℕ × Nursery)
unfolding fx_nursery_join_one
join_one_portable i n false others wait = fx_nursery_join_one i n false others wait
join_one_portable i n true others wait =
    fx_nursery_join_one i (record n { cancel = true }) false others wait

-- The loop over the slots, with the platform's wait for one of them.
unfoldable pub join_loop_with :
    (one : ℕ → Nursery → Option (ℕ × Nursery)) → (fuel i : ℕ) → Nursery → Option (ℕ × Nursery)
join_loop_with one zero i n = none
join_loop_with one (suc fuel) i n = elim (leb n.count i) [
  | true ↦ some (nursery_ok, n)
  | false ↦ elim (is_pending n.slots i) [
    | false ↦ join_loop_with one fuel (suc i) n
    | true ↦ elim (one i n) [
      | none ↦ none
      | some (rc, next) ↦ elim (rc == nursery_ok) [
        | true ↦ join_loop_with one fuel (suc i) next
        | false ↦ some (rc, next)
      ]
    ]
  ]
]

unfoldable pub join_with :
    (one : ℕ → Nursery → Option (ℕ × Nursery)) → Nursery → Option (ℕ × Nursery)
unfolding join_loop_with
join_with one n =
    if not n.live then some (nursery_dead, n) else join_loop_with one (suc n.capacity) 0 n

-- The Linux answer that stands for it.
abbrev pub as_wait : Signal → Wait
as_wait object_0 = exited
as_wait wait_timeout = timed_out
as_wait wait_failed = refused

windows_one :
    (i : ℕ) (n : Nursery) (others : List Call) (s : Signal)
    → join_one_windows i n true others s ≡ fx_nursery_join_one i n true others (as_wait s)
unfolding join_one_windows fx_nursery_join_one
windows_one i n others object_0 = refl
windows_one i n others wait_timeout = refl
windows_one i n others wait_failed = refl

windows_untimed :
    (i : ℕ) (n : Nursery) (others : List Call) (s : Signal)
    → s ≢ wait_failed
    → join_one_windows i n false others s ≡ fx_nursery_join_one i n false others (as_wait s)
unfolding join_one_windows fx_nursery_join_one
windows_untimed i n others object_0 whole = refl
windows_untimed i n others wait_timeout whole = refl
windows_untimed i n others wait_failed whole = absurd (whole refl)

perform-live : (c : Call) (n : Nursery) → (perform c n).live ≡ n.live
perform-live cancels n = ground arith
perform-live (spawns fn arg created) n = ground arith

perform_all-live : (cs : List Call) (n : Nursery) → (perform_all cs n).live ≡ n.live
perform_all-live [] n = refl
perform_all-live (c ∷ cs) n = perform_all-live cs (perform c n) ∙ perform-live c n

-- A wait leaves the nursery as live as it was.
abbrev Keeps : Bool → Option (ℕ × Nursery) → Type 0
Keeps live none = Unit
Keeps live (some (rc, m)) = m.live ≡ live

one-Keeps :
    (i : ℕ) (n : Nursery) (timed : Bool) (others : List Call) (w : Wait)
    → Keeps n.live (fx_nursery_join_one i n timed others w)
unfolding fx_nursery_join_one
one-Keeps i n false others no_clock = perform_all-live others n
one-Keeps i n false others exited = perform_all-live others n
one-Keeps i n false others timed_out = tt
one-Keeps i n false others refused = perform_all-live others n
one-Keeps i n true others no_clock = perform_all-live others n
one-Keeps i n true others exited = perform_all-live others n
one-Keeps i n true others timed_out = perform_all-live others n
one-Keeps i n true others refused = perform_all-live others n

-- The loop does what the Linux loop does if the waits do, on live nurseries.
loops_agree :
    (timed : Bool) (others : ℕ → List Call) (waits : ℕ → Wait)
    (one : ℕ → Nursery → Option (ℕ × Nursery)) (fuel i : ℕ) (n : Nursery)
    → ((i : ℕ) (n : Nursery)
        → n.live ≡ true
        → one i n ≡ fx_nursery_join_one i n timed (others i) (waits i))
    → n.live ≡ true
    → join_loop_with one fuel i n ≡ join_loop timed others waits fuel i n
unfolding join_loop_with join_loop
loops_agree timed others waits one zero i n same live = refl
loops_agree timed others waits one (suc fuel) i n same live = elim (Bool-cases (leb n.count i)) [
  | inl e ↦ ground (arith, e)
  | inr e ↦ elim (Bool-cases (is_pending n.slots i)) [
    | inr e1 ↦ ground (arith, e, e1, loops_agree timed others waits one fuel (suc i) n same live)
    | inl e1 ↦ elim (Option-cases (fx_nursery_join_one i n timed (others i) (waits i))) [
      | inl e2 ↦ ground (arith, e, e1, e2, same i n live)
      | inr ((rc, m), e2) ↦
          let kept : m.live ≡ n.live =
            subst (Keeps n.live) e2 (one-Keeps i n timed (others i) (waits i)) in
          let rest = loops_agree timed others waits one fuel (suc i) m same (kept ∙ live) in
          ground (arith, e, e1, e2, same i n live, rest)
    ]
  ]
]

portable_untimed :
    (i : ℕ) (n : Nursery) (others : List Call) (w : Wait)
    → join_one_portable i n false others w ≡ fx_nursery_join_one i n false others w
unfolding join_one_portable
portable_untimed i n others w = refl

-- On a live nursery the flag is set as `fx_nursery_request_cancel` sets it.
portable_one :
    (i : ℕ) (n : Nursery) (others : List Call) (w : Wait)
    → n.live ≡ true
    → join_one_portable i n true others w ≡ fx_nursery_join_one i n false (cancels ∷ others) w
unfolding join_one_portable fx_nursery_join_one
portable_one i n others w live =
    let flag : record n { cancel = true } ≡ perform cancels n = ground arith in
    cancelled w (ap (λ m. perform_all others m) flag)
  where
    cancelled :
        (w : Wait)
        → perform_all others (record n { cancel = true }) ≡ perform_all others (perform cancels n)
        → join_one_portable i n true others w ≡ fx_nursery_join_one i n false (cancels ∷ others) w
    cancelled no_clock e = ap (λ m. some (nursery_ok, mark_joined i m)) e
    cancelled exited e = ap (λ m. some (nursery_ok, mark_joined i m)) e
    cancelled refused e = ap (λ m. some (nursery_ok, mark_joined i m)) e
    cancelled timed_out e = refl

pub platforms_agree :
    (others : ℕ → List Call) (signals untimed : ℕ → Signal) (waits : ℕ → Wait) (n : Nursery)
    → ((i : ℕ) → untimed i ≢ wait_failed)
    → (join_with (λ i m. join_one_windows i m true (others i) (signals i)) n
        ≡ join_all_timeout others (λ i. as_wait (signals i)) n)
      × (join_with (λ i m. join_one_windows i m false (others i) (untimed i)) n
          ≡ join_all_when others (λ i. as_wait (untimed i)) n)
      × (join_with (λ i m. join_one_portable i m true (others i) (waits i)) n
          ≡ join_all_when (λ i. cancels ∷ others i) waits n)
      × (join_with (λ i m. join_one_portable i m false (others i) (waits i)) n
          ≡ join_all_when others waits n)
unfolding join_with join_all_when join_all_timeout
platforms_agree others signals untimed waits n whole = elim (Bool-cases n.live) [
  | inr dead ↦
      (ground (arith, dead), ground (arith, dead), ground (arith, dead), ground (arith, dead))
  | inl live ↦ (
    ground (
      arith,
      live,
      loops_agree true others (λ i. as_wait (signals i)) _ (suc n.capacity) 0 n
          (λ i m _. windows_one i m (others i) (signals i)) live,
    ),
    ground (
      arith,
      live,
      loops_agree false others (λ i. as_wait (untimed i)) _ (suc n.capacity) 0 n
          (λ i m _. windows_untimed i m (others i) (untimed i) (whole i)) live,
    ),
    ground (
      arith,
      live,
      loops_agree false (λ i. cancels ∷ others i) waits _ (suc n.capacity) 0 n
          (λ i m. portable_one i m (others i) (waits i)) live,
    ),
    ground (
      arith,
      live,
      loops_agree false others waits _ (suc n.capacity) 0 n
          (λ i m _. portable_untimed i m (others i) (waits i)) live,
    ),
  )
]
