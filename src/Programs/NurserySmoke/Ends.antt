-- ===== src/Programs/NurserySmoke/Ends.antt =====
-- The end of the program (examples/concur_nursery_smoke/host.c), run by run.
use fxlang.Prelude.{
  ℕ, refl, sym, subst, Bool, some, List, [], ◌∷◌, ◌++◌, arith, Option, none, Bool-cases, inl, inr,
  All, pos, eq_ℤ, ◌==◌,
}
use fxlang.Concur.Nursery.{
  Nursery, Wait, fx_nursery_create, fx_nursery_create_sized, fx_nursery_spawn, spawn,
  request_cancel, nursery_timeout,
}
use fxlang.Concur.Nursery.Shutdown.{destroy_settles}
use fxlang.Programs.NurserySmoke.Driver.{Given, Seen, passed}
use fxlang.Programs.NurserySmoke.{
  store_fn, spin_fn, sleep_fn, Given4, fill, run_sum_probe, join_and_sum, run_sized_and_full,
  refuse_and_fill, fill_and_end, use_dead, run_cancel, after_cancel, run_timeout, after_timeout,
  run_null_err, then_run, main,
}
use fxlang.Programs.NurserySmoke.Calls.{
  IsQuiet, Ends, IsSound, require-Ends, after-Ends, shutdown-Returns, join_all_timeout-Returns,
  spawn-IsSound, request_cancel-IsSound, fill-IsSound, new-IsSound, with_new-Ends, new, with_new,
  fails-Ends, spun-done, request_cancel-spawn, passes-Ends, join-Ends,
}

join_and_sum-Ends : (swapped : Bool) (n : Nursery) → IsSound n → Ends (join_and_sum swapped n)
unfolding join_and_sum
join_and_sum-Ends swapped n s = join-Ends n _ s (λ rc n3 s3. require-Ends _ _ n3 [] _ s3 tt (
    join-Ends n3 _ s3 (λ rc' n4 s4.
      require-Ends _ _ n4 [] _ s4 tt (
        require-Ends _ _ n4 [] _ s4 tt
          (require-Ends _ _ n4 [] _ s4 tt (passes-Ends n4 [] s4 tt))))))

run_sum_probe-Ends : (g : Given) (swapped : Bool) → Ends (run_sum_probe g swapped)
unfolding run_sum_probe fx_nursery_create
run_sum_probe-Ends g swapped =
    let s = new-IsSound 16 (omega arith) in
    let s1 = spawn-IsSound store_fn 1 (g.created 0) (new 16) s in
    let s2 = spawn-IsSound store_fn 2 (g.created 1) _ s1 in
    with_new-Ends 16 g.nursery g.slots g.lock _ _ (fails-Ends "create failed" [] tt) (
      require-Ends _ _ _ [] _ s tt (
        require-Ends _ _ _ [] _ s1 tt (
          require-Ends _ _ _ [] _ s2 tt
            (require-Ends _ _ _ [] _ s2 tt (join_and_sum-Ends swapped _ s2)))))

use_dead-Ends :
    (n : Nursery) (freed : List Nursery) (created : Bool)
    → IsSound n
    → All IsQuiet freed
    → Ends (use_dead n freed created)
unfolding use_dead
use_dead-Ends n freed created s quiet =
    let s1 = spawn-IsSound store_fn 1 created n s in
    require-Ends _ _ _ freed _ s quiet (
      require-Ends _ _ _ freed _ s1 quiet (
        join-Ends _ _ s1 (λ rc n2 s2. require-Ends _ _ n2 freed _ s2 quiet (
          after-Ends _ _ (shutdown-Returns n2 s2)
            (λ rc' n3 s3. require-Ends _ _ n3 freed _ s3 quiet (passes-Ends n3 freed s3 quiet))))))

fill_and_end-Ends :
    (g : Given) (freed : List Nursery) → All IsQuiet freed → Ends (fill_and_end g freed)
unfolding fill_and_end fx_nursery_create
fill_and_end-Ends g freed quiet =
    let s1 = fill-IsSound g.created 16 0 (new 16) (new-IsSound 16 (omega arith)) in
    let s2 = spawn-IsSound store_fn 1 (g.created 16) _ s1 in
    with_new-Ends 16 g.nursery g.slots g.lock _ _ (fails-Ends "create2 failed" freed quiet) (
      require-Ends _ _ _ freed _ s1 quiet (
        require-Ends _ _ _ freed _ s2 quiet (
          after-Ends _ _ (shutdown-Returns _ s2) (λ rc n3 s3.
            require-Ends _ _ n3 freed _ s3 quiet
              (use_dead-Ends n3 freed (g.created 17) s3 quiet)))))

after_cancel-Ends : (out : ℕ) (n : Nursery) → IsSound n → Ends (after_cancel (some out) n)
unfolding after_cancel
after_cancel-Ends out n s = join-Ends n _ s (λ rc n3 s3.
    require-Ends _ _ n3 [] _ s3 tt (require-Ends _ _ n3 [] _ s3 tt (passes-Ends n3 [] s3 tt)))

run_cancel-Ends : (g : Given) (early : ℕ) → Ends (run_cancel g early)
unfolding run_cancel fx_nursery_create
run_cancel-Ends g early =
    let s1 = spawn-IsSound spin_fn 1 (g.created 0) (new 16) (new-IsSound 16 (omega arith)) in
    let s2 = request_cancel-IsSound _ s1 in
    let n1 : Nursery = (spawn spin_fn 1 (g.created 0) (new 16)).1 in
    let out =
      spun-done n1 (request_cancel n1).1 early
        (request_cancel-spawn spin_fn 1 (g.created 0) (new 16) refl) in
    with_new-Ends 16 g.nursery g.slots g.lock _ _ (fails-Ends "cancel create failed" [] tt) (
      require-Ends _ _ _ [] _ s1 tt (
        require-Ends _ _ _ [] _ s2 tt (
          subst (λ out. Ends (after_cancel out (request_cancel n1).1)) (sym out)
            (after_cancel-Ends 42 _ s2))))

after_timeout-Ends : (rc : ℕ) (n : Nursery) → IsSound n → Ends (after_timeout rc n)
unfolding after_timeout
after_timeout-Ends rc n s =
    require-Ends _ _ n [] _ s tt (elim (Bool-cases (rc == nursery_timeout)) [
      | inl e ↦ rw e (
          join-Ends _ _ (request_cancel-IsSound n s)
            (λ rc' n1 s1. require-Ends _ _ n1 [] _ s1 tt (passes-Ends n1 [] s1 tt)))
      | inr e ↦ rw e (passes-Ends n [] s tt)
    ])

run_timeout-Ends : (g : Given) (wait : Wait) → Ends (run_timeout g wait)
unfolding run_timeout fx_nursery_create
run_timeout-Ends g wait =
    let s1 = spawn-IsSound sleep_fn 0 (g.created 0) (new 16) (new-IsSound 16 (omega arith)) in
    with_new-Ends 16 g.nursery g.slots g.lock _ _ (fails-Ends "timeout create failed" [] tt) (
      require-Ends _ _ _ [] _ s1 tt
        (after-Ends _ _ (join_all_timeout-Returns _ _ s1) after_timeout-Ends))

refuse_and_fill-Ends :
    (small big : Given) (left : Nursery) → IsQuiet left → Ends (refuse_and_fill small big left)
unfolding refuse_and_fill fx_nursery_create_sized
refuse_and_fill-Ends small big left quiet = fill_and_end-Ends big (left ∷ []) (quiet, tt)

All-append : (ns ms : List Nursery) → All IsQuiet ns → All IsQuiet ms → All IsQuiet (ns ++ ms)
All-append [] ms q q' = q'
All-append (n ∷ ns) ms (q, qs) q' = (q, All-append ns ms qs q')

run_sized_and_full-Ends : (small big : Given) → Ends (run_sized_and_full small big)
unfolding run_sized_and_full
run_sized_and_full-Ends small big =
    let s1 = fill-IsSound small.created 4 0 (new 4) (new-IsSound 4 (omega arith)) in
    let n2 : Nursery = (spawn store_fn 1 (small.created 4) (fill small.created 4 0 (new 4)).1).1 in
    let (valid, dead) = spawn-IsSound store_fn 1 (small.created 4) _ s1 in
    let (m, e, quiet) = destroy_settles [] (λ i. []) n2 valid dead in
    let rest =
      subst (λ o. Ends (with_new o none (refuse_and_fill small big))) (sym e)
        (refuse_and_fill-Ends small big m quiet) in
    with_new-Ends 4 small.nursery small.slots small.lock _ _
      (fails-Ends "create_sized 4 failed" [] tt)
      (require-Ends _ _ _ [] _ s1 tt (require-Ends _ _ n2 [] _ (valid, dead) tt rest))

run_null_err-Ends : Ends run_null_err
unfolding run_null_err fx_nursery_spawn
run_null_err-Ends = (passed, [], refl, inl refl, tt)

then_run-Ends : (first rest : Option Seen) → Ends first → Ends rest → Ends (then_run first rest)
unfolding then_run
then_run-Ends first rest (told, freed, e, h, quiet) (told', freed', e', h', quiet') =
    elim (Bool-cases (eq_ℤ told.1 (pos 0))) [
      | inr stop ↦ (told, freed, ground arith, h, quiet)
      | inl go ↦ (told', freed' ++ freed, ground arith, h', All-append freed' freed quiet' quiet)
    ]

-- Whatever memory, locks and threads the system gives, however the timed wait ends, whichever
-- thread of the sum is first, and however often the polling task polls before the cancel, the
-- program ends: with code 0 and nothing printed, or with code 1. No task is pending in any nursery
-- at the moment it is freed.
pub nursery_smoke-Ends : (g : Given4) → Ends (main g)
unfolding main
nursery_smoke-Ends g = then_run-Ends _ _ (run_sum_probe-Ends g.sum g.swapped) (
    then_run-Ends _ _ (run_sized_and_full-Ends g.small g.big) (
      then_run-Ends _ _ (run_cancel-Ends g.cancelled g.early)
        (then_run-Ends _ _ (run_timeout-Ends g.timed g.wait) run_null_err-Ends)))
