-- ===== src/Concur/Chan/Refines.antt =====
-- The three calls that move values (host/concur/fx_chan.c) against the bounded queue.
use fxlang.Prelude.{◌≤◌, ◌^◌, ℤ, some, true}
use fxlang.Concur.Chan.{Chan, fx_chan_send_i64, fx_chan_recv_i64, fx_chan_try_recv}
use fxlang.Concur.Chan.Queue.{
  IsValid, within_int, Implements, queue_of, push_queue, recv_queue, try_queue,
  fx_chan_send_i64-Implements, fx_chan_recv_i64-Implements, fx_chan_try_recv-Implements,
}

-- On a valid channel with at most 2 ^ 30 slots, each step of a send, of a receive and of fx_chan_try_recv returns the status
-- and the value, wakes the sleepers and makes the change that the bounded queue of its values
-- specifies, or sleeps where the queue says so; the channel that it leaves is valid and stands for
-- the queue's new state.
pub calls-Implement :
    (c : Chan) (v : ℤ)
    → IsValid c
    → c.bound ≤ 2 ^ 30
    → Implements (fx_chan_send_i64 (some c) v) (push_queue (queue_of c) v)
      × Implements (fx_chan_recv_i64 (some c) true) (recv_queue (queue_of c))
      × Implements (fx_chan_try_recv (some c) true) (try_queue (queue_of c))
calls-Implement c v valid few = (
  fx_chan_send_i64-Implements c v valid (within_int c valid few),
  fx_chan_recv_i64-Implements c valid,
  fx_chan_try_recv-Implements c valid,
)
