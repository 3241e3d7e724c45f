-- ===== src/Concur/Chan/Wakeups.antt =====
-- The threads that use one channel (host/concur/fx_chan.c): who sleeps on which condition variable,
-- who has been woken and not yet taken the lock again, and why no wakeup is lost.
use fxlang.Prelude.{
  ℕ, suc, ◌+◌, ◌-◌, ◌≤◌, ◌<◌, ◌≡◌, ◌⊎◌, inl, true, false, some, arith, ◌==◌, if◌then◌else◌, ℤ,
}
use fxlang.Concur.Chan.{
  Chan, Outcome, rejects, sleeps, returns, Wake, wake_none, signal_not_empty, signal_not_full,
  broadcast_both, fx_chan_send_i64, fx_chan_recv_i64, fx_chan_try_recv, fx_chan_close,
}

-- A channel, the threads asleep on `not_empty` and on `not_full`, and the threads that were woken
-- from each and are about to test the loop condition again.
pub record Threads : Type 0 where
  pub chan : Chan
  pub asleep_readers : ℕ
  pub woken_readers : ℕ
  pub asleep_writers : ℕ
  pub woken_writers : ℕ

-- A signal wakes one sleeper, if there is one, and a broadcast all of them.
abbrev pub wake_up : Wake → Threads → Threads
wake_up wake_none s = s
wake_up signal_not_empty s =
    if s.asleep_readers == 0
    then s
    else record s { asleep_readers = s.asleep_readers - 1; woken_readers = suc s.woken_readers }
wake_up signal_not_full s =
    if s.asleep_writers == 0
    then s
    else record s { asleep_writers = s.asleep_writers - 1; woken_writers = suc s.woken_writers }
wake_up broadcast_both s = record s {
  asleep_readers = 0;
  woken_readers = s.woken_readers + s.asleep_readers;
  asleep_writers = 0;
  woken_writers = s.woken_writers + s.asleep_writers;
}

-- What the outcome of a reader's call, or of a writer's, does to the threads.
abbrev pub settle_reader : Outcome Chan → Threads → Threads
settle_reader rejects s = s
settle_reader sleeps s = record s { asleep_readers = suc s.asleep_readers }
settle_reader (returns status out left wake) s = wake_up wake (record s { chan = left })

abbrev pub settle_writer : Outcome Chan → Threads → Threads
settle_writer rejects s = s
settle_writer sleeps s = record s { asleep_writers = suc s.asleep_writers }
settle_writer (returns status out left wake) s = wake_up wake (record s { chan = left })

-- One thread moves: it calls an operation, or it is one that was woken and goes on with the
-- operation it slept in; or a sleeper wakes with no signal, which POSIX and Win32 allow.
pub data Step (s : Threads) : Threads → Type 0 where
  recv_call : Step s (settle_reader (fx_chan_recv_i64 (some s.chan) true) s)
  recv_again :
      0 < s.woken_readers
      → Step s (
          settle_reader
            (fx_chan_recv_i64 (some s.chan) true)
            (record s { woken_readers = s.woken_readers - 1 }))
  send_call : (v : ℤ) → Step s (settle_writer (fx_chan_send_i64 (some s.chan) v) s)
  send_again :
      (v : ℤ)
      → 0 < s.woken_writers
      → Step s (
          settle_writer
            (fx_chan_send_i64 (some s.chan) v)
            (record s { woken_writers = s.woken_writers - 1 }))
  try_recv_call : Step s (settle_reader (fx_chan_try_recv (some s.chan) true) s)
  close_call : Step s (settle_reader (fx_chan_close (some s.chan)) s)
  reader_stirs :
      0 < s.asleep_readers
      → Step s
          (record s { asleep_readers = s.asleep_readers - 1; woken_readers = suc s.woken_readers })
  writer_stirs :
      0 < s.asleep_writers
      → Step s
          (record s { asleep_writers = s.asleep_writers - 1; woken_writers = suc s.woken_writers })

pub data Steps : Threads → Threads → Type 0 where
  stays : {s : Threads} → Steps s s
  moves : {s t u : Threads} → Steps s t → Step t u → Steps s u

-- A sleeping reader has, for every value in the channel, a woken reader ahead of it, and a sleeping
-- writer a woken writer for every free slot; and nobody sleeps on a closed channel.
abbrev pub IsAwake : Threads → Type 0
IsAwake s =
    ((s.asleep_readers ≡ 0) ⊎ ((s.chan.len ≤ s.woken_readers) × (s.chan.closed ≡ false)))
    × ((s.asleep_writers ≡ 0)
        ⊎ ((s.chan.bound ≤ s.chan.len + s.woken_writers) × (s.chan.closed ≡ false)))

Step-IsAwake : {s t : Threads} → Step s t → IsAwake s → IsAwake t
unfolding fx_chan_recv_i64 fx_chan_send_i64 fx_chan_try_recv fx_chan_close
Step-IsAwake recv_call awake = ground arith
Step-IsAwake (recv_again some_woken) awake = ground arith
Step-IsAwake (send_call v) awake = ground arith
Step-IsAwake (send_again v some_woken) awake = ground arith
Step-IsAwake try_recv_call awake = ground arith
Step-IsAwake close_call awake = ground arith
Step-IsAwake (reader_stirs some_asleep) awake = ground arith
Step-IsAwake (writer_stirs some_asleep) awake = ground arith

-- Whatever the threads do on a channel on which nobody sleeps at first: a reader sleeps only while
-- the channel is open and no more values lie in it than readers have been woken, and a writer only
-- while it is open and no more slots are free than writers have been woken.
pub no_lost_wakeup :
    {s t : Threads} → Steps s t → s.asleep_readers ≡ 0 → s.asleep_writers ≡ 0 → IsAwake t
no_lost_wakeup stays r w = (inl r, inl w)
no_lost_wakeup (moves before last) r w = Step-IsAwake last (no_lost_wakeup before r w)
