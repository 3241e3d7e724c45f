-- ===== src/Concur/Nursery.antt =====
-- The task nursery (host/concur/fx_task_nursery.c), as it is compiled for Linux. The operating
-- system's answers are arguments: whether a thread is created, and how a wait for one ends. While a
-- join waits the lock is free, and the other threads' calls are an argument too.
pub mod Deadline
pub mod Grows
pub mod Join
pub mod Blocks
pub mod Timed
pub mod Shutdown
pub mod Platforms
use fxlang.Prelude.{
  ℕ, zero, suc, ◌+◌, ◌-◌, ◌*◌, ◌/◌, ◌%◌, Bool, true, false, not, ◌&&◌, ◌||◌, Option, none, some,
  List, [], ◌∷◌, ltb, leb, ◌==◌, if◌then◌else◌, ℤ, pos, pos_part, ltb_ℤ, get_or, set, replicate,
  Ptr,
}

pub record Slot : Type 0 where
  pub fn : Ptr
  pub arg : Ptr
  pub used : Bool
  pub joined : Bool

-- `count` is the source's `n`.
pub record Nursery : Type 0 where
  pub live : Bool
  pub cancel : Bool
  pub count : ℕ
  pub capacity : ℕ
  pub slots : List Slot

abbrev pub nursery_ok : ℕ
nursery_ok = 0

abbrev pub nursery_err : ℕ
nursery_err = 1

abbrev pub nursery_full : ℕ
nursery_full = 2

abbrev pub nursery_dead : ℕ
nursery_dead = 3

abbrev pub nursery_timeout : ℕ
nursery_timeout = 5

abbrev pub default_max : ℕ
default_max = 16

abbrev pub hard_max : ℕ
hard_max = 64

-- What `calloc` leaves in a slot.
abbrev pub blank : Slot
blank = record { fn = 0; arg = 0; used = false; joined = false }

-- The flags say whether the two `calloc` and the initialisation of the mutex succeed.
unfoldable pub fx_nursery_create_sized :
    ℤ → (has_nursery has_slots has_lock : Bool) → Option Nursery
fx_nursery_create_sized max_tasks has_nursery has_slots has_lock =
    if ltb_ℤ max_tasks (pos 1) || ltb_ℤ (pos hard_max) max_tasks
    then none
    else if not has_nursery
    then none
    else if not has_slots
    then none
    else if not has_lock
    then none
    else some record {
      live = true;
      cancel = false;
      count = 0;
      capacity = pos_part max_tasks;
      slots = replicate (pos_part max_tasks) blank;
    }

unfoldable pub fx_nursery_create : (has_nursery has_slots has_lock : Bool) → Option Nursery
unfolding fx_nursery_create_sized
fx_nursery_create = fx_nursery_create_sized (pos default_max)

-- What the new thread runs: the slot's function on the slot's argument. `call` is the meaning of a
-- function's address.
abbrev pub fx_nursery_tramp : {S : Type 0} → (call : Ptr → Ptr → S → Option S) → Slot → S → Option S
fx_nursery_tramp call s = call s.fn s.arg

abbrev pub fx_nursery_capacity : Option Nursery → ℕ
fx_nursery_capacity none = 0
fx_nursery_capacity (some n) = n.capacity

abbrev pub fx_nursery_is_live : Option Nursery → Bool
fx_nursery_is_live none = false
fx_nursery_is_live (some n) = n.live

abbrev pub fx_nursery_cancel_requested : Option Nursery → Bool
fx_nursery_cancel_requested none = false
fx_nursery_cancel_requested (some n) = n.cancel

-- `slots[i].used && !slots[i].joined`
abbrev pub is_pending : List Slot → ℕ → Bool
is_pending slots i = (get_or slots i blank).used && not (get_or slots i blank).joined

-- The count over the first `n` slots.
abbrev pub pending_below : List Slot → ℕ → ℕ
pending_below slots zero = 0
pending_below slots (suc i) = (if is_pending slots i then 1 else 0) + pending_below slots i

abbrev pub fx_nursery_pending : Option Nursery → ℕ
fx_nursery_pending none = 0
fx_nursery_pending (some n) = pending_below n.slots n.count

-- A call on NULL is refused; another one gives a status and the nursery it leaves.
abbrev pub at_null : Option Nursery → (Nursery → ℕ × Nursery) → ℕ × Option Nursery
at_null none f = (nursery_err, none)
at_null (some n) f = ((f n).0, some (f n).1)

abbrev pub request_cancel : Nursery → ℕ × Nursery
request_cancel n =
    if not n.live then (nursery_dead, n) else (nursery_ok, record n { cancel = true })

unfoldable pub fx_nursery_request_cancel : Option Nursery → ℕ × Option Nursery
fx_nursery_request_cancel n = at_null n request_cancel

abbrev pub spawn : (fn arg : Ptr) → (created : Bool) → Nursery → ℕ × Nursery
spawn fn arg created n =
    let slot : Slot = record { fn = fn; arg = arg; used = true; joined = false } in
    if fn == 0
    then (nursery_err, n)
    else if not n.live
    then (nursery_dead, n)
    else if leb n.capacity n.count
    then (nursery_full, n)
    else if not created
    then (nursery_err, record n { slots = set n.slots n.count (record slot { used = false }) })
    else (nursery_ok, record n { slots = set n.slots n.count slot; count = suc n.count })

unfoldable pub fx_nursery_spawn :
    Option Nursery → (fn arg : Ptr) → (created : Bool) → ℕ × Option Nursery
fx_nursery_spawn n fn arg created = at_null n (spawn fn arg created)

-- What other threads call while the lock is free. A thread that joins at the same time waits for a
-- thread that is waited for already, which POSIX leaves undefined: such calls are not modelled.
pub data Call : Type 0 where
  cancels : Call
  spawns : (fn arg : Ptr) → (created : Bool) → Call

abbrev pub perform : Call → Nursery → Nursery
perform cancels n = (request_cancel n).1
perform (spawns fn arg created) n = (spawn fn arg created n).1

abbrev pub perform_all : List Call → Nursery → Nursery
perform_all [] n = n
perform_all (c ∷ cs) n = perform_all cs (perform c n)

-- How `clock_gettime` and `pthread_timedjoin_np` end. For `pthread_join`, `timed_out` is a task that
-- does not end: the call does not come back. Its errors are not looked at.
pub data Wait : Type 0 where
  no_clock : Wait
  exited : Wait
  timed_out : Wait
  refused : Wait

-- `slots[i].joined = 1`
abbrev pub mark_joined : ℕ → Nursery → Nursery
mark_joined i n = record n {
  slots = set n.slots i (record (get_or n.slots i blank) { joined = true });
}

-- `none` if the call does not come back.
unfoldable pub fx_nursery_join_one :
    (i : ℕ) → Nursery → (use_timeout : Bool) → List Call → Wait → Option (ℕ × Nursery)
fx_nursery_join_one i n false others timed_out = none
fx_nursery_join_one i n false others no_clock =
    some (nursery_ok, mark_joined i (perform_all others n))
fx_nursery_join_one i n false others exited =
    some (nursery_ok, mark_joined i (perform_all others n))
fx_nursery_join_one i n false others refused =
    some (nursery_ok, mark_joined i (perform_all others n))
fx_nursery_join_one i n true others no_clock = some (nursery_err, perform_all others n)
fx_nursery_join_one i n true others exited = some (nursery_ok, mark_joined i (perform_all others n))
fx_nursery_join_one i n true others timed_out = some (nursery_timeout, perform_all others n)
fx_nursery_join_one i n true others refused = some (nursery_err, perform_all others n)

-- The loop of `fx_nursery_join_all` and `fx_nursery_join_all_timeout`; `others i` are the calls made
-- while slot `i` is waited for, and `waits i` is how that wait ends.
unfoldable pub join_loop :
    (use_timeout : Bool)
    → (ℕ → List Call)
    → (ℕ → Wait)
    → (fuel i : ℕ) → Nursery
    → Option (ℕ × Nursery)
unfolding fx_nursery_join_one
join_loop timed others waits zero i n = none
join_loop timed others waits (suc fuel) i n = elim (leb n.count i) [
  | true ↦ some (nursery_ok, n)
  | false ↦ elim (is_pending n.slots i) [
    | false ↦ join_loop timed others waits fuel (suc i) n
    | true ↦ elim (fx_nursery_join_one i n timed (others i) (waits i)) [
      | none ↦ none
      | some (rc, next) ↦ elim (rc == nursery_ok) [
        | true ↦ join_loop timed others waits fuel (suc i) next
        | false ↦ some (rc, next)
      ]
    ]
  ]
]

-- A slot is visited once, so there are at most `capacity` visits.
unfoldable pub join_all_when : (ℕ → List Call) → (ℕ → Wait) → Nursery → Option (ℕ × Nursery)
unfolding join_loop
join_all_when others waits n =
    if not n.live then some (nursery_dead, n) else join_loop false others waits (suc n.capacity) 0 n

-- The runs in which every task that is waited for ends.
unfoldable pub join_all : (ℕ → List Call) → Nursery → Option (ℕ × Nursery)
unfolding join_all_when
join_all others = join_all_when others (λ i. exited)

unfoldable pub join_all_timeout : (ℕ → List Call) → (ℕ → Wait) → Nursery → Option (ℕ × Nursery)
unfolding join_loop
join_all_timeout others waits n =
    if not n.live then some (nursery_dead, n) else join_loop true others waits (suc n.capacity) 0 n

-- `before` and `after` are the calls that other threads make while the lock is free before the joins
-- and after them. `none` where a join does not come back.
unfoldable pub shutdown_when :
    (before : List Call)
    → (ℕ → List Call)
    → (ℕ → Wait)
    → (after : List Call) → Nursery
    → Option (ℕ × Nursery)
unfolding join_all_when
shutdown_when before others waits after n =
    if not n.live
    then some (nursery_dead, n)
    else elim (join_all_when others waits (perform_all before (record n { cancel = true }))) [
      | none ↦ none
      | some (rc, left) ↦
          if rc == nursery_ok
          then some (nursery_ok, record (perform_all after left) { live = false })
          else some (rc, left)
    ]

-- The runs in which every task that is waited for ends.
unfoldable pub shutdown :
    (before : List Call) → (ℕ → List Call) → (after : List Call) → Nursery → Option (ℕ × Nursery)
unfolding shutdown_when join_all
shutdown before others after = shutdown_when before others (λ i. exited) after

-- The nursery as it is when its slots are freed, where every task that is waited for ends.
unfoldable pub destroy :
    (before : List Call) → (ℕ → List Call) → (after : List Call) → Nursery → Option Nursery
unfolding shutdown
destroy before others after n = elim n.live [
  | false ↦ some n
  | true ↦ elim (shutdown before others after n) [ none ↦ none | some (rc, left) ↦ some left ]
]

-- A call on NULL is refused, and `fx_nursery_destroy` does nothing then.
abbrev at_null_or_stuck :
    Option Nursery → (Nursery → Option (ℕ × Nursery)) → Option (ℕ × Option Nursery)
at_null_or_stuck none f = some (nursery_err, none)
at_null_or_stuck (some n) f = elim (f n) [ none ↦ none | some (rc, left) ↦ some (rc, some left) ]

abbrev pub fx_nursery_join_all : (ℕ → List Call) → Option Nursery → Option (ℕ × Option Nursery)
fx_nursery_join_all others n = at_null_or_stuck n (join_all others)

abbrev pub fx_nursery_shutdown :
    (before : List Call)
    → (ℕ → List Call)
    → (after : List Call) → Option Nursery
    → Option (ℕ × Option Nursery)
fx_nursery_shutdown before others after n = at_null_or_stuck n (shutdown before others after)

abbrev pub fx_nursery_destroy :
    (before : List Call)
    → (ℕ → List Call)
    → (after : List Call) → Option Nursery
    → Option (Option Nursery)
fx_nursery_destroy before others after none = some none
fx_nursery_destroy before others after (some n) = elim (destroy before others after n) [
  | none ↦ none
  | some left ↦ some (some left)
]
