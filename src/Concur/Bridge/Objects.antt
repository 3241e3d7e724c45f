-- ===== src/Concur/Bridge/Objects.antt =====
-- The bridge's calls on nurseries, channels, mailboxes and supervision
-- (host/concur/fx_async_bridge.c). `none` where a call sleeps or a loop runs out of fuel.
use fxlang.Prelude.{
  ℕ, Bool, true, not, ◌||◌, Option, none, some, List, ◌==◌, if◌then◌else◌, ℤ, pos, low32, Ptr,
  update, modify,
}
use fxlang.Concur.Chan.{
  Chan, Outcome, rejects, sleeps, returns, chan_ok, chan_err, fx_chan_create, fx_chan_send,
  fx_chan_send_i64, fx_chan_recv, fx_chan_recv_i64, fx_chan_close,
}
use fxlang.Concur.Mailbox.{fx_mb_create, fx_mb_send, fx_mb_recv, fx_mb_close}
use fxlang.Concur.Nursery.{
  Nursery, Call, Wait, nursery_err, fx_nursery_create, fx_nursery_create_sized,
  fx_nursery_request_cancel, fx_nursery_pending, join_all, join_all_timeout, shutdown, destroy,
}
use fxlang.Concur.Select.{Pair, Selected, sel_err, sel_ok, fx_select_recv2}
use fxlang.Concur.Supervise.{fx_supervise_apply, fx_supervise_normalize_policy}
use fxlang.Concur.Bridge.{World, at_handle}

-- A new object at the address that the allocator gave, and its handle; 0 if it was not made.
abbrev made : {A : Type 0} → Ptr → Option A → (A → World) → World → Ptr × World
made at none put w = (0, w)
made at (some a) put w = (at, put a)

unfoldable pub fx_async_nursery_create_sized :
    (at : Ptr) → (has_slots has_lock : Bool) → ℤ → World → Ptr × World
unfolding fx_nursery_create_sized
fx_async_nursery_create_sized at has_slots has_lock max_tasks w =
    made at (fx_nursery_create_sized max_tasks (not (at == 0)) has_slots has_lock)
      (λ n. record w { nurseries = update w.nurseries at (some n) }) w

unfoldable pub fx_async_nursery_create :
    (at : Ptr) → (has_slots has_lock : Bool) → World → Ptr × World
unfolding fx_nursery_create
fx_async_nursery_create at has_slots has_lock w =
    made at (fx_nursery_create (not (at == 0)) has_slots has_lock)
      (λ n. record w { nurseries = update w.nurseries at (some n) }) w

abbrev joined : Ptr → World → Option (ℕ × Nursery) → Option (ℕ × World)
joined n_h w none = none
joined n_h w (some (status, left)) =
    some (status, record w { nurseries = update w.nurseries n_h (some left) })

-- A call of a join or of a shutdown on the nursery at a handle. The bodies of the tasks are
-- `run_task`; here only the nursery changes.
abbrev on_nursery : Ptr → (Nursery → Option (ℕ × Nursery)) → World → Option (ℕ × World)
on_nursery n_h f w = elim (at_handle w.nurseries n_h) [
  | none ↦ some (nursery_err, w)
  | some n ↦ joined n_h w (f n)
]

unfoldable pub fx_async_nursery_join_all :
    (ℕ → List Call) → (n_h : Ptr) → World → Option (ℕ × World)
unfolding join_all
fx_async_nursery_join_all others n_h = on_nursery n_h (join_all others)

-- How long a wait takes is in `waits`, which is what each wait answers under the timeout
-- `(uint32_t)timeout_ms`.
unfoldable pub fx_async_nursery_join_all_timeout :
    (ℕ → List Call)
    → (waits : (timeout_ms : ℕ) → ℕ → Wait) → (n_h : Ptr) → ℤ
    → World
    → Option (ℕ × World)
unfolding join_all_timeout
fx_async_nursery_join_all_timeout others waits n_h timeout_ms =
    on_nursery n_h (join_all_timeout others (waits (low32 timeout_ms)))

unfoldable pub fx_async_nursery_request_cancel : (n_h : Ptr) → World → ℕ × World
unfolding fx_nursery_request_cancel
fx_async_nursery_request_cancel n_h w =
    let (status, left) = fx_nursery_request_cancel (at_handle w.nurseries n_h) in
    (status, record w { nurseries = update w.nurseries n_h left })

unfoldable pub fx_async_nursery_shutdown :
    (before : List Call)
    → (ℕ → List Call)
    → (after : List Call) → (n_h : Ptr) → World
    → Option (ℕ × World)
unfolding shutdown
fx_async_nursery_shutdown before others after n_h = on_nursery n_h (shutdown before others after)

-- The nursery is gone.
abbrev gone : Ptr → World → Option Nursery → Option (ℕ × World)
gone n_h w none = none
gone n_h w (some left) = some (0, record w { nurseries = update w.nurseries n_h none })

unfoldable pub fx_async_nursery_destroy :
    (before : List Call)
    → (ℕ → List Call)
    → (after : List Call) → (n_h : Ptr) → World
    → Option (ℕ × World)
unfolding destroy
fx_async_nursery_destroy before others after n_h w = elim (at_handle w.nurseries n_h) [
  | none ↦ some (0, w)
  | some n ↦ gone n_h w (destroy before others after n)
]

unfoldable pub fx_async_nursery_pending : (n_h : Ptr) → World → ℕ
fx_async_nursery_pending n_h w = fx_nursery_pending (at_handle w.nurseries n_h)

unfoldable pub fx_async_chan_create :
    (at : Ptr) → (has_buf has_lock : Bool) → ℤ → World → Ptr × World
unfolding fx_chan_create
fx_async_chan_create at has_buf has_lock capacity w =
    made at (fx_chan_create capacity (not (at == 0)) has_buf has_lock)
      (λ c. record w { chans = update w.chans at (some c) }) w

unfoldable pub fx_async_chan_destroy : (h : Ptr) → World → ℕ × World
fx_async_chan_destroy h w = (0, record w { chans = update w.chans h none })

-- The status that a call on a channel returns, and what is left; `store` is what it does with a value
-- that was received.
abbrev pub settled :
    Outcome Chan → (Chan → World) → (ℤ → World → World) → World → Option (ℕ × World)
settled rejects put store w = some (chan_err, w)
settled sleeps put store w = none
settled (returns status none left wake) put store w = some (status, put left)
settled (returns status (some v) left wake) put store w =
    some (status, if status == chan_ok then store v (put left) else put left)

abbrev pub ignored : ℤ → World → World
ignored v w = w

-- `s->value = v`
abbrev pub into_slot : Ptr → ℤ → World → World
into_slot slot_h v w = record w { slots = modify w.slots slot_h (λ old. v) }

abbrev pub with_chan : World → Ptr → Chan → World
with_chan w h left = record w { chans = update w.chans h (some left) }

unfoldable pub fx_async_chan_send : (h : Ptr) → ℤ → World → Option (ℕ × World)
unfolding fx_chan_send
fx_async_chan_send h v w = settled (fx_chan_send (at_handle w.chans h) v) (with_chan w h) ignored w

unfoldable pub fx_async_chan_send_i64 : (h : Ptr) → ℤ → World → Option (ℕ × World)
unfolding fx_chan_send_i64
fx_async_chan_send_i64 h v w =
    settled (fx_chan_send_i64 (at_handle w.chans h) v) (with_chan w h) ignored w

unfoldable pub fx_async_chan_recv_slot : (h slot_h : Ptr) → World → Option (ℕ × World)
unfolding fx_chan_recv
fx_async_chan_recv_slot h slot_h w =
    if slot_h == 0
    then some (chan_err, w)
    else settled (fx_chan_recv (at_handle w.chans h) true) (with_chan w h) (into_slot slot_h) w

unfoldable pub fx_async_chan_recv_i64_slot : (h slot_h : Ptr) → World → Option (ℕ × World)
unfolding fx_chan_recv_i64
fx_async_chan_recv_i64_slot h slot_h w =
    if slot_h == 0
    then some (chan_err, w)
    else settled (fx_chan_recv_i64 (at_handle w.chans h) true) (with_chan w h) (into_slot slot_h) w

unfoldable pub fx_async_chan_close : (h : Ptr) → World → Option (ℕ × World)
unfolding fx_chan_close
fx_async_chan_close h w = settled (fx_chan_close (at_handle w.chans h)) (with_chan w h) ignored w

-- A channel that a call has changed, where there was one.
abbrev put_back : Ptr → Option Chan → World → World
put_back h none w = w
put_back h (some c) w = with_chan w h c

-- `v` and `which` are 0 and -1 before the call; both are written when it returns FX_SEL_OK. The state of the
-- channel that is polled first is kept where both handles are one channel.
abbrev pub selected :
    (a_h b_h value_slot which_slot : Ptr) → World → Option Selected → Option (ℕ × World)
selected a_h b_h value_slot which_slot w none = none
selected a_h b_h value_slot which_slot w (some r) =
    let left = put_back a_h r.chans.a (put_back b_h r.chans.b w) in
    some (
      r.status,
      if r.status == sel_ok
          then into_slot which_slot (pos r.which)
              (into_slot value_slot (elim r.out [ none ↦ pos 0 | some v ↦ v ]) left)
          else left,
    )

-- `others` and `fuel` are those of `fx_select_recv2`. Where both handles are one channel, `others` gives
-- the same for both, and a value is taken by the first poll.
unfoldable pub fx_async_select_recv2_slots :
    (others : ℕ → Pair → Pair)
    → (fuel : ℕ) → (a_h b_h value_slot which_slot : Ptr) → (timeout_ms : ℤ) → World
    → Option (ℕ × World)
unfolding fx_select_recv2
fx_async_select_recv2_slots others fuel a_h b_h value_slot which_slot timeout_ms w =
    if (value_slot == 0) || (which_slot == 0)
    then some (sel_err, w)
    else selected a_h b_h value_slot which_slot w (
        fx_select_recv2 others fuel
          (record { a = at_handle w.chans a_h; b = at_handle w.chans b_h }) true true
          (low32 timeout_ms))

unfoldable pub fx_async_mb_create :
    (at : Ptr) → (has_chan has_buf has_lock : Bool) → ℤ → World → Ptr × World
unfolding fx_mb_create
fx_async_mb_create at has_chan has_buf has_lock capacity w =
    made at (fx_mb_create capacity (not (at == 0)) has_chan has_buf has_lock)
      (λ m. record w { boxes = update w.boxes at (some m) }) w

unfoldable pub fx_async_mb_destroy : (h : Ptr) → World → ℕ × World
fx_async_mb_destroy h w = (0, record w { boxes = update w.boxes h none })

abbrev pub with_box : World → Ptr → Chan → World
with_box w h left = record w { boxes = update w.boxes h (some record { ch = left }) }

unfoldable pub fx_async_mb_send : (h : Ptr) → ℤ → World → Option (ℕ × World)
unfolding fx_mb_send
fx_async_mb_send h v w = settled (fx_mb_send (at_handle w.boxes h) v) (with_box w h) ignored w

unfoldable pub fx_async_mb_recv_slot : (h slot_h : Ptr) → World → Option (ℕ × World)
unfolding fx_mb_recv
fx_async_mb_recv_slot h slot_h w =
    if slot_h == 0
    then some (chan_err, w)
    else settled (fx_mb_recv (at_handle w.boxes h) true) (with_box w h) (into_slot slot_h) w

unfoldable pub fx_async_mb_close : (h : Ptr) → World → Option (ℕ × World)
unfolding fx_mb_close
fx_async_mb_close h w = settled (fx_mb_close (at_handle w.boxes h)) (with_box w h) ignored w

unfoldable pub fx_async_supervise_normalize : ℤ → ℤ
fx_async_supervise_normalize policy = fx_supervise_normalize_policy policy

unfoldable pub fx_async_supervise_apply : (n_h : Ptr) → (policy child_ok : ℤ) → World → ℕ × World
unfolding fx_supervise_apply
fx_async_supervise_apply n_h policy child_ok w =
    let (status, left) = fx_supervise_apply (at_handle w.nurseries n_h) policy child_ok in
    (status, record w { nurseries = update w.nurseries n_h left })
