-- ===== src/Programs/NurserySmoke.antt =====
-- The program that tries out the nursery (examples/concur_nursery_smoke/host.c), as it is compiled
-- for Linux. The system's answers are arguments: whether memory, a lock and a thread are given, how
-- the threads run, and how the timed wait ends. Its tasks call nothing but `fx_nursery_cancel_requested`.
pub mod Driver
pub mod Calls
pub mod Ends
pub mod Passes
pub mod Windows
use Prim.Native.String.{String}
use fxlang.Prelude.{
  ℕ, zero, suc, ◌+◌, ◌-◌, Bool, true, false, not, ◌||◌, ◌&&◌, Option, none, some, List, [], ◌∷◌,
  ◌++◌, ◌==◌, ltb, if◌then◌else◌, Text, codes, Ptr, ℤ, pos, eq_ℤ, get_or, set,
}
use fxlang.Programs.NurserySmoke.Driver.{
  Given, Seen, failed, passed, free_and, require, after, join,
}
use fxlang.Edge.Cli.{fx_cli_fail}
use fxlang.Concur.Nursery.{
  Nursery, Slot, Wait, blank, default_max, nursery_ok, nursery_err, nursery_full, nursery_dead,
  nursery_timeout, fx_nursery_create, fx_nursery_create_sized, fx_nursery_tramp,
  fx_nursery_capacity, fx_nursery_is_live, fx_nursery_cancel_requested, fx_nursery_pending,
  fx_nursery_request_cancel, fx_nursery_spawn, fx_nursery_join_all, fx_nursery_shutdown,
  fx_nursery_destroy, request_cancel, spawn, join_all, join_all_timeout, shutdown, destroy,
}

-- The addresses of the three task functions, and of the arguments `a0` and `a1`.
abbrev pub store_fn : Ptr
store_fn = 1

abbrev pub spin_fn : Ptr
spin_fn = 2

abbrev pub sleep_fn : Ptr
sleep_fn = 3

abbrev pub task_store : (slot value : ℕ) → List ℕ → List ℕ
task_store slot value parts = set parts slot value

-- The meaning of the functions' addresses in `run_sum_probe`, on the array `parts`.
abbrev call_store : Ptr → Ptr → List ℕ → Option (List ℕ)
call_store fn arg parts =
    if not (fn == store_fn)
    then none
    else if arg == 1
    then some (task_store 0 20 parts)
    else if arg == 2
    then some (task_store 1 22 parts)
    else none

-- The two threads, one after the other; `swapped` if the second one is first.
abbrev pub parts_after : (swapped : Bool) → Nursery → Option (List ℕ)
parts_after swapped n =
    let first : ℕ = if swapped then 1 else 0 in
    elim (fx_nursery_tramp call_store (get_or n.slots first blank) (0 ∷ 0 ∷ [])) [
      | none ↦ none
      | some parts ↦ fx_nursery_tramp call_store (get_or n.slots (1 - first) blank) parts
    ]

-- `parts[0] + parts[1]`
abbrev pub sum_after : (swapped : Bool) → Nursery → ℕ
sum_after swapped n = elim (parts_after swapped n) [
  | none ↦ 0
  | some parts ↦ get_or parts 0 0 + get_or parts 1 0
]

-- The tests from the first join on.
unfoldable pub join_and_sum : (swapped : Bool) → Nursery → Option Seen
join_and_sum swapped n2 = join n2 (λ rc n3. require (rc == nursery_ok) "join_all failed" n3 [] (
    join n3 (λ rc' n4. require (rc' == nursery_ok) "double join failed" n4 [] (
      require (fx_nursery_pending (some n4) == 0) "pending after join" n4 []
        (require (sum_after swapped n2 == 42) "sum expected 42" n4 [] (free_and n4 [] passed))))))

unfoldable pub run_sum_probe : Given → (swapped : Bool) → Option Seen
run_sum_probe g swapped = elim (fx_nursery_create g.nursery g.slots g.lock) [
  | none ↦ some (failed "create failed", [])
  | some n ↦
      if not (fx_nursery_is_live (some n))
      then some (failed "create failed", [])
      else require (fx_nursery_capacity (some n) == default_max) "default capacity" n [] (
          let (rc, n1) = spawn store_fn 1 (g.created 0) n in
          require (rc == nursery_ok) "spawn0 failed" n1 [] (
            let (rc', n2) = spawn store_fn 2 (g.created 1) n1 in
            require (rc' == nursery_ok) "spawn1 failed" n2 [] (
              require (fx_nursery_pending (some n2) == 2) "pending expected 2" n2 []
                (join_and_sum swapped n2))))
]

-- The loops that spawn `k` tasks; whether all calls succeed, and the nursery they leave.
unfoldable pub fill : (created : ℕ → Bool) → (k : ℕ) → (i : ℕ) → Nursery → Bool × Nursery
fill created zero i n = (true, n)
fill created (suc k) i n =
    let (rc, next) = spawn store_fn 1 (created i) n in
    let rest = fill created k (suc i) next in if rc == nursery_ok then rest else (false, next)

-- The calls on a nursery that has been shut down.
unfoldable pub use_dead : Nursery → List Nursery → (created : Bool) → Option Seen
use_dead n freed created = require (not (fx_nursery_is_live (some n))) "expected not live" n freed (
    let (rc, n1) = spawn store_fn 1 created n in
    require (rc == nursery_dead) "expected DEAD after shutdown" n1 freed (
      join n1 (λ rc' n2.
        require (rc' == nursery_dead) "join after shutdown expected DEAD" n2 freed (
          after (shutdown [] (λ i. []) [] n2) (λ rc'' n3.
            require (rc'' == nursery_dead) "second shutdown expected DEAD" n3 freed
              (free_and n3 freed passed))))))

-- From the second nursery of `run_sized_and_full` on.
unfoldable pub fill_and_end : Given → List Nursery → Option Seen
fill_and_end g freed = elim (fx_nursery_create g.nursery g.slots g.lock) [
  | none ↦ some (failed "create2 failed", freed)
  | some n ↦
      let (ok, n1) = fill g.created default_max 0 n in
      require ok "fill spawn failed early" n1 freed (
        let (rc, n2) = spawn store_fn 1 (g.created default_max) n1 in
        require (rc == nursery_full) "expected FULL" n2 freed (
          after (shutdown [] (λ i. []) [] n2) (λ rc' n3.
            require (rc' == nursery_ok) "shutdown failed" n3 freed
              (use_dead n3 freed (g.created (default_max + 1))))))
]

-- Whether a size is refused.
abbrev pub refuses_size : ℤ → Given → Bool
refuses_size size g = elim (fx_nursery_create_sized size g.nursery g.slots g.lock) [
  | none ↦ true
  | some n ↦ false
]

-- After the nursery for 4 tasks is freed.
unfoldable pub refuse_and_fill : (small big : Given) → (left : Nursery) → Option Seen
refuse_and_fill small big left =
    if not (refuses_size (pos 0) small) || not (refuses_size (pos 100) small)
    then some (failed "invalid size should NULL", left ∷ [])
    else fill_and_end big (left ∷ [])

-- `small` is given to the nursery for 4 tasks, `big` to the one of the default size.
unfoldable pub run_sized_and_full : (small big : Given) → Option Seen
run_sized_and_full small big =
    elim (fx_nursery_create_sized (pos 4) small.nursery small.slots small.lock) [
      | none ↦ some (failed "create_sized 4 failed", [])
      | some n ↦
          if not (fx_nursery_capacity (some n) == 4)
          then some (failed "create_sized 4 failed", [])
          else let (ok, n1) = fill small.created 4 0 n in
            require ok "sized fill failed" n1 [] (
              let (rc, n2) = spawn store_fn 1 (small.created 4) n1 in
              require (rc == nursery_full) "sized expected FULL" n2 []
                (elim (destroy [] (λ i. []) [] n2) [
                  | none ↦ none
                  | some left ↦ refuse_and_fill small big left
                ]))
    ]

-- The loop of the task, on fuel; `seen i` is the nursery at the poll `i`. The result is what the
-- task writes to `*out`, and `none` while it still runs.
unfoldable pub task_spin_until_cancel : (seen : ℕ → Nursery) → (fuel i : ℕ) → Option ℕ
task_spin_until_cancel seen zero i = none
task_spin_until_cancel seen (suc fuel) i =
    let rest = task_spin_until_cancel seen fuel (suc i) in
    if fx_nursery_cancel_requested (some (seen i)) then some 42 else rest

-- The task polls `early` times before `fx_nursery_request_cancel` and then again.
abbrev pub spun : (early : ℕ) → (running cancelled : Nursery) → Option ℕ
spun early running cancelled =
    task_spin_until_cancel (λ i. if ltb i early then running else cancelled) (suc early) 0

-- The join returns once the task has ended.
unfoldable pub after_cancel : (out : Option ℕ) → Nursery → Option Seen
after_cancel none n = none
after_cancel (some out) n = join n (λ rc left.
    require (rc == nursery_ok) "cancel join failed" left []
      (require (out == 42) "cancel task did not finish" left [] (free_and left [] passed)))

unfoldable pub run_cancel : Given → (early : ℕ) → Option Seen
run_cancel g early = elim (fx_nursery_create g.nursery g.slots g.lock) [
  | none ↦ some (failed "cancel create failed", [])
  | some n ↦
      let (rc, n1) = spawn spin_fn 1 (g.created 0) n in
      require (rc == nursery_ok) "cancel spawn failed" n1 [] (
        let (rc', n2) = request_cancel n1 in
        require (rc' == nursery_ok) "request_cancel failed" n2 []
          (after_cancel (spun early n1 n2) n2))
]

-- After `fx_nursery_join_all_timeout`.
unfoldable pub after_timeout : (rc : ℕ) → Nursery → Option Seen
after_timeout rc n =
    require ((rc == nursery_timeout) || (rc == nursery_ok)) "timeout path failed" n [] (
      if not (rc == nursery_timeout)
      then free_and n [] passed
      else join (request_cancel n).1 (λ rc' n1.
        require (rc' == nursery_ok) "post-timeout join failed" n1 [] (free_and n1 [] passed)))

-- `wait` is how the wait for the sleeping task ends.
unfoldable pub run_timeout : Given → Wait → Option Seen
run_timeout g wait = elim (fx_nursery_create g.nursery g.slots g.lock) [
  | none ↦ some (failed "timeout create failed", [])
  | some n ↦
      let (rc, n1) = spawn sleep_fn 0 (g.created 0) n in
      require (rc == nursery_ok) "timeout spawn failed" n1 []
        (after (join_all_timeout (λ i. []) (λ i. wait) n1) after_timeout)
]

-- The status of a call that returns.
abbrev is_status : ℕ → Option (ℕ × Option Nursery) → Bool
is_status expected result = elim result [ none ↦ false | some (rc, n) ↦ rc == expected ]

-- The calls on NULL.
unfoldable pub run_null_err : Option Seen
run_null_err =
    if not ((fx_nursery_spawn none store_fn 0 true).0 == nursery_err)
    then some (failed "null spawn expected ERR", [])
    else if not (is_status nursery_err (fx_nursery_join_all (λ i. []) none))
    then some (failed "null join expected ERR", [])
    else if not (is_status nursery_err (fx_nursery_shutdown [] (λ i. []) [] none))
    then some (failed "null shutdown expected ERR", [])
    else elim (fx_nursery_destroy [] (λ i. []) [] none) [ none ↦ none | some _ ↦ some (passed, []) ]

-- `if (rc != 0) return rc`; the nurseries freed by the runs, the last one first.
unfoldable pub then_run : Option Seen → (rest : Option Seen) → Option Seen
then_run first rest = elim first [
  | none ↦ none
  | some (told, freed) ↦
      if not (eq_ℤ told.1 (pos 0))
      then some (told, freed)
      else elim rest [ none ↦ none | some (told', freed') ↦ some (told', freed' ++ freed) ]
]

-- What the system gives to the runs, and how the threads run in them.
pub record Given4 : Type 0 where
  pub sum : Given
  pub small : Given
  pub big : Given
  pub cancelled : Given
  pub timed : Given
  pub swapped : Bool
  pub early : ℕ
  pub wait : Wait

unfoldable pub main : Given4 → Option Seen
main g = then_run (run_sum_probe g.sum g.swapped) (
    then_run (run_sized_and_full g.small g.big) (
      then_run (run_cancel g.cancelled g.early)
        (then_run (run_timeout g.timed g.wait) run_null_err)))
