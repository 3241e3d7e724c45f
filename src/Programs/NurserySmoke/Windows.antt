-- ===== src/Programs/NurserySmoke/Windows.antt =====
-- The run of examples/concur_nursery_smoke/host.c that times out, as it is compiled for Windows.
use fxlang.Prelude.{
  ℕ, ◌≡◌, refl, sym, ap, subst, ◌∙◌, ◌-◌, replicate, Bool, true, false, Text, Option, none, some,
  [], ◌∷◌, ◌==◌, ℤ,
}
use fxlang.Programs.NurserySmoke.Driver.{
  Given, Seen, failed, passed, free_and, require, after, join,
}
use fxlang.Programs.NurserySmoke.Passes.{IsGiven, IsGiven-all, all_given}
use fxlang.Programs.NurserySmoke.{sleep_fn, run_timeout, after_timeout}
use fxlang.Concur.Nursery.{
  Nursery, Wait, default_max, blank, mark_joined, timed_out, exited, destroy, nursery_ok,
  nursery_timeout, fx_nursery_create, spawn, request_cancel, join_all, join_all_timeout,
}
use fxlang.Concur.Nursery.Platforms.{
  Signal, object_0, wait_timeout, join_one_windows, join_with, as_wait, platforms_agree,
}

-- A join in which every wait has this answer.
abbrev joined : (use_timeout : Bool) → Signal → Nursery → Option (ℕ × Nursery)
joined timed signal n = join_with (λ i m. join_one_windows i m timed [] signal) n

unfoldable after_timeout_windows : (rc : ℕ) → Nursery → Option Seen
after_timeout_windows rc n = require (rc == nursery_timeout) "expected TIMEOUT" n [] (
    after (joined false object_0 (request_cancel n).1) (λ rc' n1.
      require (rc' == nursery_ok) "post-timeout join failed" n1 [] (free_and n1 [] passed)))

unfoldable run_timeout_windows : Given → Signal → Option Seen
run_timeout_windows g signal = elim (fx_nursery_create g.nursery g.slots g.lock) [
  | none ↦ some (failed "timeout create failed", [])
  | some n ↦
      let (rc, n1) = spawn sleep_fn 0 (g.created 0) n in
      require (rc == nursery_ok) "timeout spawn failed" n1 []
        (after (joined true signal n1) after_timeout_windows)
]

abbrev told_of : Option Seen → Option (Text × ℤ)
told_of none = none
told_of (some (told, freed)) = some told

-- The nursery with the task that sleeps.
abbrev one_task : Nursery
one_task = record {
  live = true;
  cancel = false;
  count = 1;
  capacity = default_max;
  slots =
      record { fn = sleep_fn; arg = 0; used = true; joined = false }
      ∷ replicate (default_max - 1) blank;
}

joined_windows :
    (signal : Signal) (n : Nursery)
    → joined true signal n ≡ join_all_timeout (λ i. []) (λ i. as_wait signal) n
joined_windows signal n =
    (platforms_agree (λ i. []) (λ i. signal) (λ i. object_0) (λ i. exited) n (λ i e. cc)).0

joined_all : (n : Nursery) → joined false object_0 n ≡ join_all (λ i. []) n
unfolding join_all
joined_all n =
    (platforms_agree (λ i. []) (λ i. object_0) (λ i. object_0) (λ i. exited) n (λ i e. cc)).1

run_windows :
    (signal : Signal)
    → run_timeout_windows all_given signal
      ≡ after (join_all_timeout (λ i. []) (λ i. as_wait signal) one_task) after_timeout_windows
unfolding run_timeout_windows fx_nursery_create require
run_windows signal = ap (λ r. after r after_timeout_windows) (joined_windows signal one_task)

run_linux :
    (wait : Wait)
    → run_timeout all_given wait
      ≡ after (join_all_timeout (λ i. []) (λ i. wait) one_task) after_timeout
unfolding run_timeout fx_nursery_create require
run_linux wait = refl

abbrev finish_timeout : ℕ → Nursery → Option Seen
finish_timeout rc n =
    require (rc == nursery_ok) "post-timeout join failed" n [] (free_and n [] passed)

after_agree :
    (n : Nursery) → after_timeout_windows nursery_timeout n ≡ after_timeout nursery_timeout n
unfolding after_timeout_windows after_timeout join require
after_agree n = ap (λ r. after r finish_timeout) (joined_all (request_cancel n).1)

is_over : join_all_timeout (λ i. []) (λ i. timed_out) one_task ≡ some (nursery_timeout, one_task)
unfolding join_all_timeout fx_nursery_create
is_over = refl

is_exited :
    join_all_timeout (λ i. []) (λ i. exited) one_task ≡ some (nursery_ok, mark_joined 0 one_task)
unfolding join_all_timeout
is_exited = refl

over :
    (rest : ℕ → Nursery → Option Seen)
    → after (join_all_timeout (λ i. []) (λ i. timed_out) one_task) rest
      ≡ rest nursery_timeout one_task
unfolding after
over rest = ap (λ r. after r rest) is_over

-- If all is given and the wait for the task is over in time, the run on Windows sees what the run
-- on Linux sees.
timed_out_agrees :
    (g : Given) → IsGiven g → run_timeout_windows g wait_timeout ≡ run_timeout g timed_out
timed_out_agrees g given =
    subst (λ h. run_timeout_windows h wait_timeout ≡ run_timeout h timed_out)
      (sym (IsGiven-all g given))
      (run_windows wait_timeout
        ∙ over after_timeout_windows
        ∙ after_agree one_task
        ∙ sym (over after_timeout)
        ∙ sym (run_linux timed_out))

exited_windows :
    told_of (after (join_all_timeout (λ i. []) (λ i. exited) one_task) after_timeout_windows)
    ≡ some (failed "expected TIMEOUT")
unfolding after_timeout_windows require free_and destroy after
exited_windows = ap (λ r. told_of (after r after_timeout_windows)) is_exited ∙ refl

exited_linux :
    told_of (after (join_all_timeout (λ i. []) (λ i. exited) one_task) after_timeout) ≡ some passed
unfolding after_timeout require free_and destroy after
exited_linux = ap (λ r. told_of (after r after_timeout)) is_exited ∙ refl

-- If the task has exited by then, the run on Windows fails with its message, where the run on Linux passes.
exited_fails :
    (g : Given)
    → IsGiven g
    → (told_of (run_timeout_windows g object_0) ≡ some (failed "expected TIMEOUT"))
      × (told_of (run_timeout g exited) ≡ some passed)
exited_fails g given =
    subst
      (λ h.
        (told_of (run_timeout_windows h object_0) ≡ some (failed "expected TIMEOUT"))
        × (told_of (run_timeout h exited) ≡ some passed))
      (sym (IsGiven-all g given))
      (
        ap told_of (run_windows object_0) ∙ exited_windows,
        ap told_of (run_linux exited) ∙ exited_linux,
      )
