-- ===== src/Concur/Tests/Bridges.antt =====
-- Concrete runs of the theorems on the async bridge and on the traffic of a channel (host/concur).
use fxlang.Prelude.{
  ◌<◌, ℕ, zero, suc, ◌≤◌, ◌⊎◌, ◌≡◌, refl, true, false, inl, inr, none, some, List, [], ◌∷◌, ◌++◌,
  arith, ◌==◌, pos, negsuc, if◌then◌else◌, Ptr,
}
use fxlang.Concur.Chan.{Chan, fx_chan_send_i64, fx_chan_recv_i64}
use fxlang.Concur.Chan.Queue.{IsValid, queue_of}
use fxlang.Concur.Chan.Wakeups.{
  Threads, Steps, stays, moves, send_call, recv_call, settle_reader, settle_writer,
}
use fxlang.Concur.Chan.Traffic.{items, sent, received, Steps-fifo}
use fxlang.Concur.Nursery.{Nursery, blank, nursery_ok}
use fxlang.Concur.Nursery.Grows
use fxlang.Concur.Bridge.{
  World, store_arg, send_arg, mb_send_arg, run_task, fx_async_slot_get, fx_async_nursery_spawn_add,
  fx_async_nursery_spawn_send, fx_async_nursery_spawn_mb_send,
}
use fxlang.Concur.Bridge.Objects.{
  fx_async_chan_recv_slot, fx_async_nursery_join_all, fx_async_nursery_pending,
}
use fxlang.Concur.Bridge.Tasks.{Job}
use fxlang.Concur.Bridge.Schedule.{Event, spawns, runs, carry_out}
use fxlang.Concur.Bridge.Schedule.Underway.{InBatch}
use fxlang.Concur.Bridge.Schedule.Delivery.{IsStorable, IsStored}
use fxlang.Concur.Bridge.Schedule.Batch.{batch_delivers}
use fxlang.Concur.Bridge.Leaks.{Leaks, refused_spawns-Leaks}
use fxlang.Concur.Bridge.Sends.{spawn_send-recv_slot}

-- A channel for two values with 7 in it, at address 30.
abbrev one_value : Chan
one_value = record { buf = pos 7 ∷ pos 0 ∷ []; bound = 2; len = 1; head = 0; closed = false }

one_value-IsValid : IsValid one_value
one_value-IsValid = record {
  whole = refl;
  some_room = omega arith;
  fits = omega arith;
  in_ring = omega arith;
}

-- A send and a receive by two threads.
abbrev idle : Threads
idle = record {
  chan = one_value;
  asleep_readers = 0;
  woken_readers = 0;
  asleep_writers = 0;
  woken_writers = 0;
}

abbrev after_send : Threads
after_send = settle_writer (fx_chan_send_i64 (some one_value) (negsuc 4)) idle

abbrev after_recv : Threads
after_recv = settle_reader (fx_chan_recv_i64 (some after_send.chan) true) after_send

abbrev traffic : Steps idle after_recv
traffic = moves (moves stays (send_call (negsuc 4))) recv_call

Steps-fifo_example :
    IsValid after_recv.chan
    × (after_recv.chan.bound ≡ 2)
    × (items idle ++ sent traffic ≡ received traffic ++ items after_recv)
unfolding fx_chan_send_i64
Steps-fifo_example =
    Steps-fifo traffic one_value-IsValid (omega arith) (omega arith, (omega arith, tt))

-- Nurseries for two tasks: at address 20 an empty one, at 21 a full one.
abbrev empty : Nursery
empty = record { live = true; cancel = false; count = 0; capacity = 2; slots = blank ∷ blank ∷ [] }

abbrev full : Nursery
full = record { live = true; cancel = false; count = 2; capacity = 2; slots = blank ∷ blank ∷ [] }

empty-IsValid : Grows.IsValid empty
empty-IsValid = record { whole = refl; bounded = omega arith; fits = omega arith }

abbrev world : World
world = record {
  slots = λ p. if (p == 10) then some (pos 0) else if (p == 11) then some (pos 0) else none;
  chans = λ p. if p == 30 then some one_value else none;
  boxes = λ p. none;
  nurseries = λ p. if (p == 20) then some empty else if (p == 21) then some full else none;
  args = λ p. none;
}

abbrev jobs : ℕ → Job
jobs zero = record { at = 40; slot = 10; value = pos 5 }
jobs (suc i) = record { at = 41; slot = 11; value = negsuc 2 }

jobs-IsStorable : (i : ℕ) → InBatch 0 2 i → IsStorable world (jobs i)
jobs-IsStorable zero h = ((omega arith, omega arith), omega arith, pos 0, refl)
jobs-IsStorable (suc zero) h = ((omega arith, omega arith), omega arith, pos 0, refl)
jobs-IsStorable (suc (suc i)) (low, high) = absurd (omega arith)

jobs_at : (i j : ℕ) → InBatch 0 2 i → InBatch 0 2 j → (jobs i).at ≡ (jobs j).at → i ≡ j
jobs_at zero zero h k e = refl
jobs_at zero (suc j) h k e = absurd (omega (arith, e))
jobs_at (suc i) zero h k e = absurd (omega (arith, e))
jobs_at (suc i) (suc j) (low, high) (low', high') e = omega arith

jobs_slot : (i j : ℕ) → InBatch 0 2 i → InBatch 0 2 j → (jobs i).slot ≡ (jobs j).slot → i ≡ j
jobs_slot zero zero h k e = refl
jobs_slot zero (suc j) h k e = absurd (omega (arith, e))
jobs_slot (suc i) zero h k e = absurd (omega (arith, e))
jobs_slot (suc i) (suc j) (low, high) (low', high') e = omega arith

-- The first task runs before the second one is spawned.
abbrev order : List Event
order = spawns ∷ runs 0 ∷ spawns ∷ runs 1 ∷ []

-- Both are spawned, and the second one runs first.
abbrev other_order : List Event
other_order = spawns ∷ spawns ∷ runs 1 ∷ runs 0 ∷ []

batch_delivers_example :
    (left : World) × (after : World) × (carry_out 20 jobs 0 order world ≡ some left)
    × (carry_out 20 jobs 0 other_order world ≡ some left)
    × (fx_async_nursery_join_all (λ i. []) 20 left ≡ some (nursery_ok, after))
    × (fx_async_nursery_pending 20 after ≡ 0)
    × ((i : ℕ) → (i < 0) ⊎ (2 ≤ i) ⊎ IsStored after (jobs i))
    × ((s : Ptr)
        → ((i : ℕ) × InBatch 0 2 i × ((jobs i).slot ≡ s)) ⊎ (after.slots s ≡ world.slots s))
    × ((p : Ptr) → ((i : ℕ) × InBatch 0 2 i × ((jobs i).at ≡ p)) ⊎ (after.args p ≡ world.args p))
batch_delivers_example =
    batch_delivers 20 jobs empty 2 order other_order world refl empty-IsValid refl (omega arith)
      (omega arith) (omega arith) jobs-IsStorable jobs_at jobs_slot
      (omega arith, (refl, (omega arith, (refl, (refl, λ i. ground arith)))))
      (omega arith, (omega arith, (refl, (refl, (refl, λ i. ground arith)))))

refused_spawns-Leaks_example :
    Leaks 21 40
      (store_arg 10 (pos 5))
      world
      (fx_async_nursery_spawn_add 40 true 21 10 (pos 5) world)
    × Leaks 21 40
        (send_arg 10 (pos 5))
        world
        (fx_async_nursery_spawn_send 40 true 21 10 (pos 5) world)
    × Leaks 21 40
        (mb_send_arg 10 (pos 5))
        world
        (fx_async_nursery_spawn_mb_send 40 true 21 10 (pos 5) world)
refused_spawns-Leaks_example =
    refused_spawns-Leaks 40 21 10 true (pos 5) full world refl (inr (inl (omega arith)))
      (omega arith) (omega arith) (omega arith)

spawn_send-recv_slot_example :
    (spawned : World) × (ran : World) × (after : World) × (left : Chan)
    × (fx_async_nursery_spawn_send 40 true 20 30 (negsuc 4) world ≡ (0, spawned))
    × (run_task 20 0 spawned ≡ some ran)
    × (fx_async_chan_recv_slot 30 11 ran ≡ some (0, after))
    × (fx_async_slot_get 11 after ≡ pos 7)
    × (after.args 40 ≡ none)
    × (after.chans 30 ≡ some left)
    × ((queue_of left).items ≡ negsuc 4 ∷ [])
spawn_send-recv_slot_example =
    spawn_send-recv_slot 40 20 30 11 (negsuc 4) (pos 7) (pos 0) (negsuc 4 ∷ []) empty one_value
      world refl empty-IsValid refl (omega arith) refl one_value-IsValid refl (omega arith)
      (omega arith) refl (omega arith) (omega arith) (omega arith) (omega arith) refl (omega arith)
