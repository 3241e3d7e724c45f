-- ===== src/Concur/Tests.antt =====
-- Concrete runs of the theorems on the concurrency substrate (host/concur).
pub mod Nurseries
pub mod Bridges
use fxlang.Prelude.{
  ◌≢◌, ◌⊎◌, ℕ, ◌+◌, ◌*◌, ◌<◌, ◌≤◌, ◌≡◌, refl, Bool, true, false, none, some, List, [], ◌∷◌, arith,
  ◌==◌, pos, negsuc, if◌then◌else◌, ◌||◌,
}
use fxlang.Concur.Chan.{Chan, fx_chan_create, fx_chan_send_i64, fx_chan_recv_i64, fx_chan_try_recv}
use fxlang.Concur.Chan.Queue.{IsValid, Implements, queue_of, push_queue, recv_queue, try_queue}
use fxlang.Concur.Chan.Refines.{calls-Implement}
use fxlang.Concur.Chan.Lifecycle.{fx_chan_create-IsValid}
use fxlang.Concur.Chan.RoundTrip.{send_all, recv_all, send_all-recv_all}
use fxlang.Concur.Chan.Wakeups.{Threads, Step, Steps, stays, moves, IsAwake, no_lost_wakeup}
use fxlang.Concur.Nursery.{
  Wait, timed_out, join_all_timeout, Nursery, Call, cancels, spawns, blank, join_all, shutdown,
  destroy, nursery_ok, fx_nursery_pending,
}
use fxlang.Concur.Nursery.Deadline.{Timespec, deadline, nanoseconds, deadline_lem}
use fxlang.Concur.Nursery.Grows
use fxlang.Concur.Nursery.Join.{join_all_settles}
use fxlang.Concur.Nursery.Timed.{join_all_timeout_returns}
use fxlang.Concur.Nursery.Shutdown.{shutdown_settles, destroy_settles, shutdown_race}
use fxlang.Concur.Lifetimes.{
  Heap, IsBalanced, chan_create_heap, chan_destroy_heap, nursery_create_heap, nursery_destroy_heap,
  mb_create_heap, mb_destroy_heap, create-IsBalanced,
}
use fxlang.Concur.Mutex.{
  Mutexes, IsFresh, IsGone, fx_mutex_create, fx_mutex_destroy, fx_mutex_create_lem,
  fx_mutex_destroy-IsGone,
}
use fxlang.Concur.Mutex.Race.{looks, made, create_both, fx_mutex_create_race}
use fxlang.Concur.Select.{Pair, Selected, round, poll, fx_select_recv2}
use fxlang.Concur.Select.Timeout.{fx_select_recv2_returns, fx_select_recv2_forever}
use fxlang.Concur.Supervise.{fx_supervise_apply, fx_supervise_apply_lem}
use fxlang.Concur.Mailbox.{fx_mb_create, fx_mb_create_delivers}

-- Two values in a ring of three, the second one wrapped around.
abbrev wrapped : Chan
wrapped = record {
  buf = pos 8 ∷ pos 0 ∷ negsuc 6 ∷ [];
  bound = 3;
  len = 2;
  head = 2;
  closed = false;
}

wrapped-IsValid : IsValid wrapped
wrapped-IsValid = record {
  whole = refl;
  some_room = omega arith;
  fits = omega arith;
  in_ring = omega arith;
}

calls-Implement_example :
    Implements (fx_chan_send_i64 (some wrapped) (pos 9)) (push_queue (queue_of wrapped) (pos 9))
    × Implements (fx_chan_recv_i64 (some wrapped) true) (recv_queue (queue_of wrapped))
    × Implements (fx_chan_try_recv (some wrapped) true) (try_queue (queue_of wrapped))
calls-Implement_example = calls-Implement wrapped (pos 9) wrapped-IsValid (omega arith)

-- An empty channel for two values.
abbrev pair : Chan
pair = record { buf = pos 0 ∷ pos 0 ∷ []; bound = 2; len = 0; head = 0; closed = false }

pair-IsValid : IsValid pair
pair-IsValid = record {
  whole = refl;
  some_room = omega arith;
  fits = omega arith;
  in_ring = omega arith;
}

fx_mb_create_delivers_example :
    (left : Chan) × (send_all pair (pos 7 ∷ []) ≡ some left) × (recv_all left 1 ≡ pos 7 ∷ [])
unfolding fx_mb_create fx_chan_create
fx_mb_create_delivers_example =
    fx_mb_create_delivers (pos 2) true true true true (record { ch = pair }) (pos 7 ∷ []) refl
      (omega arith) (omega arith, tt) (omega arith)

-- A reader goes to sleep, and a writer sends.
abbrev quiet : Threads
quiet = record {
  chan = pair;
  asleep_readers = 0;
  woken_readers = 0;
  asleep_writers = 0;
  woken_writers = 0;
}

abbrev sent : Threads
sent = record {
  chan = record pair { buf = pos 5 ∷ pos 0 ∷ []; len = 1 };
  asleep_readers = 0;
  woken_readers = 1;
  asleep_writers = 0;
  woken_writers = 0;
}

quiet-sent : Steps quiet sent
unfolding fx_chan_recv_i64 fx_chan_send_i64
quiet-sent = moves (moves stays Step.recv_call) (Step.send_call (pos 5))

no_lost_wakeup_example : IsAwake sent
no_lost_wakeup_example = no_lost_wakeup quiet-sent refl refl

-- Two mutexes, with the handles 1 and 3.
abbrev mutexes : Mutexes
mutexes = record { used = λ i. (i == 0) || (i == 2); alive = λ i. (i == 0) || (i == 2) }

fx_mutex_create_lem_example :
    IsFresh mutexes (fx_mutex_create true mutexes)
    ⊎ (((fx_mutex_create true mutexes).0 ≡ 0)
        × ((true ≡ false) ⊎ ((i : ℕ) → (64 ≤ i) ⊎ (mutexes.used i ≡ true))))
fx_mutex_create_lem_example = fx_mutex_create_lem mutexes true

fx_mutex_create_race_example :
    (alone : List Bool) × (order : List Bool) × (table : Mutexes) × (create_both alone
        (record { table = mutexes; one = looks 0; other = looks 0 })
      ≡ record {
        table = (fx_mutex_create true mutexes).1;
        one = made (fx_mutex_create true mutexes).0;
        other = looks 0;
      })
    × (create_both order (record { table = mutexes; one = looks 0; other = looks 0 }) ≡ record {
      table = table;
      one = made (fx_mutex_create true mutexes).0;
      other = made (fx_mutex_create true mutexes).0;
    })
unfolding fx_mutex_create
fx_mutex_create_race_example = fx_mutex_create_race mutexes (λ e. omega (arith, e))

abbrev chans : Pair
chans = record { a = none; b = some pair }

fx_select_recv2_returns_example :
    (r : Selected) × (fx_select_recv2 (λ n p. p) 5 chans true true 3 ≡ some r)
fx_select_recv2_returns_example = fx_select_recv2_returns (λ n p. p) chans true true 3 (omega arith)

fx_select_recv2_forever_example : fx_select_recv2 (λ n p. p) 1000 chans true true 4294967295 ≡ none
unfolding round poll
fx_select_recv2_forever_example = fx_select_recv2_forever (λ n p. p) 1000 chans refl (λ n. refl)

-- An allocator that gives two addresses and then none: the mailbox is not made.
abbrev nothing_allocated : Heap
nothing_allocated p = false

create-IsBalanced_example :
    IsBalanced nothing_allocated (chan_create_heap 8 16 true nothing_allocated) chan_destroy_heap
    × IsBalanced nothing_allocated
        (nursery_create_heap (pos 4) 8 16 true nothing_allocated)
        nursery_destroy_heap
    × IsBalanced nothing_allocated (mb_create_heap 8 16 0 true nothing_allocated) mb_destroy_heap
create-IsBalanced_example =
    create-IsBalanced 8 16 0 true (pos 4) nothing_allocated refl refl refl (λ e. omega (arith, e))
      (λ e. omega (arith, e)) (λ e. omega (arith, e))
