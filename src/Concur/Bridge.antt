-- ===== src/Concur/Bridge.antt =====
-- The async bridge (host/concur/fx_async_bridge.c): handles of int64_t for the nurseries, channels,
-- mailboxes and value slots of a program, and the tasks that a nursery runs for it. A handle is the
-- address of an object in a table of the world, or 0; the conversions between them change nothing.
-- What malloc and calloc answer (0 if they fail) is an argument of each call.
pub mod Objects
pub mod Tasks
pub mod Leaks
pub mod Sends
pub mod Schedule
use fxlang.Prelude.{
  ℕ, suc, Bool, true, false, ◌||◌, Option, none, some, ◌==◌, if◌then◌else◌, ℤ, pos, get_or, to_i32,
  Ptr, Table, update, modify,
}
use fxlang.Concur.Chan.{Chan, Outcome, rejects, sleeps, returns, fx_chan_send}
use fxlang.Concur.Mailbox.{Mailbox, fx_mb_send}
use fxlang.Concur.Nursery.{Nursery, Slot, blank, nursery_err, fx_nursery_spawn, fx_nursery_tramp}

-- FxAsyncStoreArg, FxAsyncSendArg and FxAsyncMbSendArg: what a spawn leaves on the heap for its task.
pub data Arg : Type 0 where
  store_arg : (slot : Ptr) → (value : ℤ) → Arg
  send_arg : (chan : Ptr) → (value : ℤ) → Arg
  mb_send_arg : (mb : Ptr) → (value : ℤ) → Arg

-- `slots` holds the `value` of each FxAsyncSlot.
pub record World : Type 0 where
  pub slots : Table ℤ
  pub chans : Table Chan
  pub boxes : Table Mailbox
  pub nurseries : Table Nursery
  pub args : Table Arg

-- The object at a handle.
abbrev pub at_handle : {A : Type 0} → Table A → Ptr → Option A
at_handle t h = if h == 0 then none else t h

abbrev pub free_arg : Ptr → World → World
free_arg p w = record w { args = update w.args p none }

unfoldable pub fx_async_store_task : Ptr → World → World
fx_async_store_task p w = elim (w.args p) [
  | some (store_arg slot value) ↦
      if slot == 0
      then free_arg p w
      else free_arg p (record w { slots = modify w.slots slot (λ old. value) })
  | _ ↦ free_arg p w
]

-- A task that sends on a full channel sleeps, which gives `none`.
abbrev after_send : Outcome Chan → (Chan → World) → World → Option World
after_send rejects put w = some w
after_send sleeps put w = none
after_send (returns status out left wake) put w = some (put left)

abbrev freed : Ptr → Option World → Option World
freed p none = none
freed p (some w) = some (free_arg p w)

unfoldable pub fx_async_send_task : Ptr → World → Option World
unfolding fx_chan_send
fx_async_send_task p w = elim (w.args p) [
  | some (send_arg chan value) ↦ freed p (
      after_send (fx_chan_send (at_handle w.chans chan) value)
        (λ left. record w { chans = update w.chans chan (some left) }) w)
  | _ ↦ some (free_arg p w)
]

unfoldable pub fx_async_mb_send_task : Ptr → World → Option World
unfolding fx_mb_send
fx_async_mb_send_task p w = elim (w.args p) [
  | some (mb_send_arg mb value) ↦ freed p (
      after_send (fx_mb_send (at_handle w.boxes mb) value)
        (λ left. record w { boxes = update w.boxes mb (some record { ch = left }) }) w)
  | _ ↦ some (free_arg p w)
]

-- The addresses of the three tasks. Which they are is the linker's choice; they differ and are not 0.
abbrev pub store_fn : Ptr
store_fn = 1

abbrev pub send_fn : Ptr
send_fn = 2

abbrev pub mb_send_fn : Ptr
mb_send_fn = 3

-- What a call of a task does. No other function is spawned by the bridge.
unfoldable pub call_task : (fn arg : Ptr) → World → Option World
unfolding fx_async_store_task fx_async_send_task fx_async_mb_send_task
call_task fn arg w =
    if fn == store_fn
    then some (fx_async_store_task arg w)
    else if fn == send_fn
    then fx_async_send_task arg w
    else if fn == mb_send_fn
    then fx_async_mb_send_task arg w
    else some w

-- The slot at an index of a nursery.
abbrev pub task_at : Option Nursery → ℕ → Option Slot
task_at none i = none
task_at (some n) i = some (get_or n.slots i blank)

-- The thread of a nursery's slot runs from its begin to its end.
unfoldable pub run_task : (n_h : Ptr) → (i : ℕ) → World → Option World
unfolding call_task
run_task n_h i w = elim (task_at (w.nurseries n_h) i) [
  | none ↦ none
  | some s ↦ fx_nursery_tramp call_task s w
]

-- `fx_nursery_spawn(n, fn, arg)` on the nursery at the handle.
unfoldable pub spawn_at : (n_h fn arg : Ptr) → (created : Bool) → World → ℕ × World
unfolding fx_nursery_spawn
spawn_at n_h fn arg created w =
    let (status, left) = fx_nursery_spawn (w.nurseries n_h) fn arg created in
    (status, record w { nurseries = update w.nurseries n_h left })

-- The body that the three spawns share: `at` is what malloc answers.
unfoldable pub spawn_with :
    (fn : Ptr) → (at : Ptr) → (created : Bool) → (n_h object : Ptr) → Arg → World → ℕ × World
unfolding spawn_at
spawn_with fn at created n_h object arg w =
    if (n_h == 0) || (object == 0)
    then (nursery_err, w)
    else if at == 0
    then (nursery_err, w)
    else spawn_at n_h fn at created (record w { args = update w.args at (some arg) })

unfoldable pub fx_async_nursery_spawn_add :
    (at : Ptr) → (created : Bool) → (n_h slot_h : Ptr) → ℤ → World → ℕ × World
unfolding spawn_with
fx_async_nursery_spawn_add at created n_h slot_h value =
    spawn_with store_fn at created n_h slot_h (store_arg slot_h value)

unfoldable pub fx_async_nursery_spawn_send :
    (at : Ptr) → (created : Bool) → (n_h chan_h : Ptr) → ℤ → World → ℕ × World
unfolding spawn_with
fx_async_nursery_spawn_send at created n_h chan_h value =
    spawn_with send_fn at created n_h chan_h (send_arg chan_h value)

unfoldable pub fx_async_nursery_spawn_mb_send :
    (at : Ptr) → (created : Bool) → (n_h mb_h : Ptr) → ℤ → World → ℕ × World
unfolding spawn_with
fx_async_nursery_spawn_mb_send at created n_h mb_h value =
    spawn_with mb_send_fn at created n_h mb_h (mb_send_arg mb_h value)

unfoldable pub fx_async_slot_new : (at : Ptr) → World → Ptr × World
fx_async_slot_new at w =
    if at == 0 then (0, w) else (at, record w { slots = update w.slots at (some (pos 0)) })

abbrev or_zero : Option ℤ → ℤ
or_zero none = pos 0
or_zero (some v) = v

unfoldable pub fx_async_slot_get_i64 : (slot_h : Ptr) → World → ℤ
fx_async_slot_get_i64 slot_h w = if slot_h == 0 then pos 0 else or_zero (w.slots slot_h)

unfoldable pub fx_async_slot_get : (slot_h : Ptr) → World → ℤ
fx_async_slot_get slot_h w = if slot_h == 0 then pos 0 else to_i32 (or_zero (w.slots slot_h))

unfoldable pub fx_async_slot_set : (slot_h : Ptr) → ℤ → World → ℕ × World
fx_async_slot_set slot_h v w =
    if slot_h == 0
    then (nursery_err, w)
    else (0, record w { slots = modify w.slots slot_h (λ old. v) })
