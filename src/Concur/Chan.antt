-- ===== src/Concur/Chan.antt =====
-- The bounded channel (host/concur/fx_chan.c): its ring buffer and its operations. An operation is
-- modelled by what it does while it holds the lock, from the point where it takes the lock or
-- wakes up: it goes to sleep on a condition variable, or it returns.
pub mod Ring
pub mod Queue
pub mod Refines
pub mod Lifecycle
pub mod RoundTrip
pub mod Wakeups
pub mod Traffic
use fxlang.Prelude.{
  ℕ, suc, ◌+◌, ◌-◌, ◌%◌, ◌^◌, Bool, true, false, not, ◌&&◌, ◌||◌, Option, none, some, List, leb,
  ltb, ◌==◌, if◌then◌else◌, ℤ, pos, pos_part, ltb_ℤ, get_or, set, replicate, to_i32,
}

-- `buf[i]` out of bounds is not read by the code; the model reads 0 there.
pub record Chan : Type 0 where
  pub buf : List ℤ
  pub bound : ℕ
  pub len : ℕ
  pub head : ℕ
  pub closed : Bool

abbrev pub chan_ok : ℕ
chan_ok = 0

abbrev pub chan_err : ℕ
chan_err = 1

abbrev pub chan_closed : ℕ
chan_closed = 7

abbrev pub chan_empty : ℕ
chan_empty = 9

-- Which sleepers the call wakes before it gives the lock back.
pub data Wake : Type 0 where
  wake_none : Wake
  signal_not_empty : Wake
  signal_not_full : Wake
  broadcast_both : Wake

-- `rejects` is FX_CHAN_ERR, returned before the lock is taken; `sleeps` gives the lock back
-- and waits; `returns` carries the status, what was written to `*out` and the state left.
pub data Outcome (S : Type 0) : Type 0 where
  rejects : Outcome S
  sleeps : Outcome S
  returns : (status : ℕ) → (out : Option ℤ) → (left : S) → (wake : Wake) → Outcome S

-- The three flags say whether each `calloc` and the initialisation of the mutex succeed.
unfoldable pub fx_chan_create : ℤ → (has_chan has_buf has_lock : Bool) → Option Chan
fx_chan_create capacity has_chan has_buf has_lock =
    let capped = if ltb_ℤ capacity (pos 1) then pos 1 else capacity in
    if not has_chan
    then none
    else if not has_buf
    then none
    else if not has_lock
    then none
    else some record {
      buf = replicate (pos_part capped) (pos 0);
      bound = pos_part capped;
      len = 0;
      head = 0;
      closed = false;
    }

-- The ring after `buf[(head + len) % cap] = v`. The sum is of int: where it overflows, C leaves open
-- what happens, and the model's value writes nothing.
abbrev pub write_last : Chan → ℤ → List ℤ
write_last c v =
    if ltb (c.head + c.len) (2 ^ 31) then set c.buf ((c.head + c.len) % c.bound) v else c.buf

unfoldable pub fx_chan_send_i64 : Option Chan → ℤ → Outcome Chan
fx_chan_send_i64 none v = rejects
fx_chan_send_i64 (some c) v =
    if leb c.bound c.len && not c.closed
    then sleeps
    else if c.closed
    then returns chan_closed none c wake_none
    else returns chan_ok none (record c { buf = write_last c v; len = suc c.len }) signal_not_empty

-- `v = buf[head]; head = (head + 1) % cap; len--;` and the signal, with `*out = v`.
abbrev take_first : Chan → Outcome Chan
take_first c =
    returns chan_ok (some (get_or c.buf c.head (pos 0)))
      (record c { head = suc c.head % c.bound; len = c.len - 1 }) signal_not_full

-- `has_out` says whether `out` is not NULL.
unfoldable pub fx_chan_recv_i64 : Option Chan → (has_out : Bool) → Outcome Chan
fx_chan_recv_i64 none has_out = rejects
fx_chan_recv_i64 (some c) has_out =
    if not has_out
    then rejects
    else if (c.len == 0) && not c.closed
    then sleeps
    else if (c.len == 0) && c.closed
    then returns chan_closed none c wake_none
    else take_first c

-- `*out = (int32_t)v`
abbrev pub narrow : {S : Type 0} → Outcome S → Outcome S
narrow rejects = rejects
narrow sleeps = sleeps
narrow (returns status none left wake) = returns status none left wake
narrow (returns status (some v) left wake) = returns status (some (to_i32 v)) left wake

unfoldable pub fx_chan_send : Option Chan → ℤ → Outcome Chan
fx_chan_send c v = fx_chan_send_i64 c v

unfoldable pub fx_chan_recv : Option Chan → (has_out : Bool) → Outcome Chan
fx_chan_recv c has_out = if not has_out then rejects else narrow (fx_chan_recv_i64 c true)

unfoldable pub fx_chan_try_recv : Option Chan → (has_out : Bool) → Outcome Chan
fx_chan_try_recv none has_out = rejects
fx_chan_try_recv (some c) has_out =
    if not has_out
    then rejects
    else if c.len == 0
    then returns (if c.closed then chan_closed else chan_empty) none c wake_none
    else narrow (take_first c)

unfoldable pub fx_chan_close : Option Chan → Outcome Chan
fx_chan_close none = rejects
fx_chan_close (some c) = returns chan_ok none (record c { closed = true }) broadcast_both
