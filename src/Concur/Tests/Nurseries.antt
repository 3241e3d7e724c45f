-- ===== src/Concur/Tests/Nurseries.antt =====
-- Concrete runs of the theorems on nurseries and their supervision (host/concur).
use fxlang.Prelude.{
  ◌≢◌, ℕ, ◌*◌, ◌<◌, ◌≡◌, refl, suc, ◌+◌, ◌/◌, ◌%◌, true, false, none, some, List, [], ◌∷◌, arith,
  ◌==◌, if◌then◌else◌,
}
use fxlang.Concur.Nursery.{
  Wait, timed_out, refused, shutdown_when, Nursery, Call, cancels, spawns, blank, join_all,
  shutdown, nursery_ok, fx_nursery_pending,
}
use fxlang.Concur.Nursery.Grows
use fxlang.Concur.Nursery.Platforms.{Signal, wait_timeout, wait_failed}
use fxlang.Concur.Nursery.Shutdown.{shutdown_settles, shutdown_race}
use fxlang.Concur.Nursery.Deadline.{Timespec, ends_at, join_all_within, join_all_within_anew}

-- Two tasks, one of them joined, in a nursery for three.
abbrev tasks : Nursery
tasks = record {
  live = true;
  cancel = false;
  count = 2;
  capacity = 3;
  slots =
      record { fn = 1; arg = 0; used = true; joined = true }
      ∷ record { fn = 1; arg = 9; used = true; joined = false }
      ∷ blank
      ∷ [];
}

tasks-IsValid : Grows.IsValid tasks
tasks-IsValid = record { whole = refl; bounded = omega arith; fits = omega arith }

-- While slot 1 is waited for, another thread asks for the end.
abbrev others : ℕ → List Call
others i = if i == 1 then cancels ∷ [] else []

-- The wait for slot 1 comes back with an error.
abbrev erring : ℕ → Wait
erring i = refused

erring-ends : (i : ℕ) → i < 3 → erring i ≢ timed_out
erring-ends i below e = cc

shutdown_settles_example :
    (m : Nursery) × (shutdown_when [] others erring [] tasks ≡ some (nursery_ok, m))
    × (m.live ≡ false)
    × (fx_nursery_pending (some m) ≡ 0)
shutdown_settles_example = shutdown_settles [] others erring tasks tasks-IsValid refl erring-ends

abbrev joined_tasks : Nursery
joined_tasks = elim (join_all others (record tasks { cancel = true })) [
  | none ↦ tasks
  | some r ↦ r.1
]

tasks-joined : join_all others (record tasks { cancel = true }) ≡ some (nursery_ok, joined_tasks)
unfolding join_all
tasks-joined = refl

shutdown_race_example :
    (left : Nursery) × (shutdown [] others (spawns 1 7 true ∷ []) tasks ≡ some (nursery_ok, left))
    × (left.live ≡ false)
    × (fx_nursery_pending (some left) ≡ 1)
unfolding join_all
shutdown_race_example =
    shutdown_race [] others tasks joined_tasks 1 7 tasks-IsValid refl tasks-joined (omega arith)
      (λ e. omega (arith, e))

-- The wait for slot 1 takes too long.
abbrev late : ℕ → Wait
late i = timed_out

-- The wait for slot 1 fails, or the task does not end.
abbrev broken : ℕ → Signal
broken i = wait_failed

abbrev endless : ℕ → Signal
endless i = wait_timeout

-- Three slots and a timeout of a second and a half, from 7.9 seconds on.
abbrev clock : ℕ → Timespec
clock i = record { tv_sec = (79 + 15 * i) / 10; tv_nsec = (79 + 15 * i) % 10 * 100000000 }

join_all_within_anew_example :
    (m : Nursery) × (join_all_within 1500
        (λ i. some (clock i))
        (λ i. ends_at (7900000000 + suc i * (1500 * 1000000)))
        others
        tasks
      ≡ some (nursery_ok, m))
    × (fx_nursery_pending (some m) ≡ 0)
join_all_within_anew_example =
    join_all_within_anew 1500 7900000000 clock others tasks tasks-IsValid refl
      (λ i below. omega arith) (λ i below. omega arith)
