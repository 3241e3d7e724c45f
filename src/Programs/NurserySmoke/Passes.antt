-- ===== src/Programs/NurserySmoke/Passes.antt =====
-- The program (examples/concur_nursery_smoke/host.c) where the system refuses nothing.
use mathlib.Core.Path.{fun_ext, subst₂}
use fxlang.Prelude.{
  ℕ, ◌≡◌, refl, ap, sym, subst, ◌∙◌, Bool, true, false, some, List, [], ◌∷◌, arith, Option, ◌++◌,
  replicate, ◌⊎◌, inl, inr,
}
use fxlang.Concur.Nursery.{
  Nursery, blank, Wait, exited, timed_out, fx_nursery_create, fx_nursery_create_sized, join_all,
  join_all_timeout, destroy, fx_nursery_spawn,
}
use fxlang.Programs.NurserySmoke.Calls.{spun-done}
use fxlang.Programs.NurserySmoke.Driver.{Given, Seen, passed, require, free_and, join, after}
use fxlang.Programs.NurserySmoke.{
  Given4, spun, then_run, run_sum_probe, join_and_sum, run_sized_and_full, fill, refuse_and_fill,
  fill_and_end, use_dead, run_cancel, after_cancel, run_timeout, after_timeout, run_null_err, main,
  task_spin_until_cancel,
}

abbrev pub all_given : Given
all_given = record { nursery = true; slots = true; lock = true; created = λ i. true }

sum_passes :
    (swapped : Bool)
    → (left : List Nursery) × (run_sum_probe all_given swapped ≡ some (passed, left))
unfolding run_sum_probe fx_nursery_create join_and_sum join_all destroy require free_and join after
    fill
sum_passes true = (_, refl)
sum_passes false = (_, refl)

full_passes : (left : List Nursery) × (run_sized_and_full all_given all_given ≡ some (passed, left))
unfolding run_sized_and_full refuse_and_fill fx_nursery_create_sized fx_nursery_create fill_and_end
    use_dead join_all destroy require free_and join after fill
full_passes = (_, refl)

-- The nursery of `run_cancel`, before and after the cancel.
abbrev running : Nursery
running = record {
  live = true;
  cancel = false;
  count = 1;
  capacity = 16;
  slots = record { fn = 2; arg = 1; used = true; joined = false } ∷ replicate 15 blank;
}

abbrev cancelled : Nursery
cancelled = record running { cancel = true }

cancel_passes :
    (early : ℕ) → (left : List Nursery) × (run_cancel all_given early ≡ some (passed, left))
unfolding run_cancel after_cancel fx_nursery_create join_all destroy require free_and join after
    fill task_spin_until_cancel
cancel_passes early =
    let finished : spun early running cancelled ≡ some 42 =
      spun-done running cancelled early refl in
    let (left, e) = joins_cancelled in (left, ap (λ out. after_cancel out cancelled) finished ∙ e)
  where
    joins_cancelled :
        (left : List Nursery) × (after_cancel (some 42) cancelled ≡ some (passed, left))
    joins_cancelled = (_, refl)

abbrev TimedOut : Wait → Type 0
TimedOut wait = (left : List Nursery) × (run_timeout all_given wait ≡ some (passed, left))

timeout_passes : (wait : Wait) → (wait ≡ exited) ⊎ (wait ≡ timed_out) → TimedOut wait
unfolding run_timeout fx_nursery_create after_timeout join_all_timeout join_all destroy require
    free_and join after fill
timeout_passes wait (inl e) = subst (λ w. TimedOut w) (sym e) (_, refl)
timeout_passes wait (inr e) = subst (λ w. TimedOut w) (sym e) (_, refl)

null_passes : run_null_err ≡ some (passed, [])
unfolding run_null_err fx_nursery_spawn
null_passes = refl

-- Memory, the lock and every thread are given.
abbrev pub IsGiven : Given → Type 0
IsGiven g = (g.nursery ≡ true) × (g.slots ≡ true) × (g.lock ≡ true) × ((i : ℕ) → g.created i ≡ true)

pub IsGiven-all : (g : Given) → IsGiven g → g ≡ all_given
IsGiven-all g (n, s, l, c) =
    ap (λ b. record g { nursery = b }) n
    ∙ ap (λ b. record all_given { slots = b; lock = g.lock; created = g.created }) s
    ∙ ap (λ b. record all_given { lock = b; created = g.created }) l
    ∙ ap (λ f. record all_given { created = f }) (fun_ext c)

abbrev Passes : Option Seen → Type 0
Passes o = (left : List Nursery) × (o ≡ some (passed, left))

then_run-Passes :
    (first rest : Option Seen) → Passes first → Passes rest → Passes (then_run first rest)
unfolding then_run
then_run-Passes first rest (l, e) (l', e') = (l' ++ l, ground arith)

-- If the system gives the memory, the locks and the threads that the program asks for, and the
-- timed wait ends because the task has exited or because the time is over, the program passes all
-- its tests: it prints nothing and its code is 0. This holds whichever of the two threads of the
-- sum runs first, and however often the polling task has polled before the cancel.
pub nursery_smoke_passes :
    (g : Given4)
    → IsGiven g.sum
    → IsGiven g.small
    → IsGiven g.big
    → IsGiven g.cancelled
    → IsGiven g.timed
    → (g.wait ≡ exited) ⊎ (g.wait ≡ timed_out)
    → (left : List Nursery) × (main g ≡ some (passed, left))
unfolding main
nursery_smoke_passes g sum small big cancel timed wait =
    then_run-Passes _ _
      (subst (λ s. Passes (run_sum_probe s g.swapped)) (sym (IsGiven-all g.sum sum))
        (sum_passes g.swapped))
      (then_run-Passes _ _
        (subst₂ (λ s b. Passes (run_sized_and_full s b)) (sym (IsGiven-all g.small small))
          (sym (IsGiven-all g.big big)) full_passes)
        (then_run-Passes _ _
          (subst (λ s. Passes (run_cancel s g.early)) (sym (IsGiven-all g.cancelled cancel))
            (cancel_passes g.early))
          (then_run-Passes _ _
            (subst (λ s. Passes (run_timeout s g.wait)) (sym (IsGiven-all g.timed timed))
              (timeout_passes g.wait wait))
            ([], null_passes))))
