-- ===== src/Concur/Bridge/Sends.antt =====
-- A task that sends, from its spawn to the value that a receive stores
-- (host/concur/fx_async_bridge.c, `fx_async_nursery_spawn_send`, `fx_async_send_task`,
-- `fx_async_chan_recv_slot` and `fx_async_slot_get`).
use fxlang.Prelude.{
  ℕ, suc, ◌≤◌, ◌^◌, ◌≡◌, ◌<◌, ◌∙◌, ap, true, false, none, some, List, [], ◌∷◌, ◌++◌, ℤ, IsI32,
  to_i32_of_IsI32, Ptr, arith, length, set, get_or-set_self, update,
}
use fxlang.Concur.Chan.{
  Chan, returns, chan_ok, signal_not_empty, signal_not_full, fx_chan_send, fx_chan_recv,
}
use fxlang.Concur.Chan.Queue.{IsValid, queue_of, within_int}
use fxlang.Concur.Chan.RoundTrip.{send-Leaves, recv-Leaves}
use fxlang.Concur.Nursery.{Nursery, Slot, blank, fx_nursery_spawn}
use fxlang.Concur.Nursery.Grows
use fxlang.Concur.Bridge.{
  World, send_arg, free_arg, task_at, spawn_at, spawn_with, call_task, run_task, fx_async_send_task,
  fx_async_nursery_spawn_send, fx_async_slot_get,
}
use fxlang.Concur.Bridge.Objects.{into_slot, with_chan, fx_async_chan_recv_slot}

abbrev sender : Ptr → Slot
sender at = record { fn = 2; arg = at; used = true; joined = false }

abbrev queued : (at n_h chan_h : Ptr) → ℤ → Nursery → World → World
queued at n_h chan_h v n w = record w {
  nurseries =
      update w.nurseries n_h
        (some (record n { slots = set n.slots n.count (sender at); count = suc n.count }));
  args = update w.args at (some (send_arg chan_h v));
}

spawn_send-queued :
    (at n_h chan_h : Ptr) (v : ℤ) (n : Nursery) (w : World)
    → w.nurseries n_h ≡ some n
    → n.live ≡ true
    → n.count < n.capacity
    → 0 < at
    → 0 < n_h
    → 0 < chan_h
    → fx_async_nursery_spawn_send at true n_h chan_h v w ≡ (0, queued at n_h chan_h v n w)
unfolding fx_async_nursery_spawn_send spawn_with spawn_at fx_nursery_spawn
spawn_send-queued at n_h chan_h v n w e live room has_arg has_nursery has_chan = ground (arith, e)

run_task-sender :
    (n_h at : Ptr) (i : ℕ) (w : World)
    → task_at (w.nurseries n_h) i ≡ some (sender at)
    → run_task n_h i w ≡ fx_async_send_task at w
unfolding run_task call_task
run_task-sender n_h at i w e = ground (arith, e)

send_task-sent :
    (at chan_h : Ptr) (v : ℤ) (c left : Chan) (w : World)
    → w.args at ≡ some (send_arg chan_h v)
    → w.chans chan_h ≡ some c
    → 0 < chan_h
    → fx_chan_send (some c) v ≡ returns chan_ok none left signal_not_empty
    → fx_async_send_task at w ≡ some (free_arg at (with_chan w chan_h left))
unfolding fx_async_send_task
send_task-sent at chan_h v c left w waits e has_chan sent = ground (arith, waits, e, sent)

recv_slot-stored :
    (h slot_h : Ptr) (x : ℤ) (c left : Chan) (w : World)
    → w.chans h ≡ some c
    → 0 < h
    → 0 < slot_h
    → fx_chan_recv (some c) true ≡ returns chan_ok (some x) left signal_not_full
    → fx_async_chan_recv_slot h slot_h w ≡ some (0, into_slot slot_h x (with_chan w h left))
unfolding fx_async_chan_recv_slot
recv_slot-stored h slot_h x c left w e has_chan has_slot got = ground (arith, e, got)

-- On a live nursery and a valid open channel of at most 2 ^ 30 slots, both with room: the spawn returns FX_NURSERY_OK, its
-- task runs to its end without sleeping and frees its argument, and then `fx_async_chan_recv_slot`
-- returns FX_CHAN_OK and stores the first of the values that were queued with the task's one behind
-- them, if it is an int32_t; the others stay queued in their order.
pub spawn_send-recv_slot :
    (at n_h chan_h slot_h : Ptr) (v x old : ℤ) (xs : List ℤ) (n : Nursery) (c : Chan) (w : World)
    → w.nurseries n_h ≡ some n
    → Grows.IsValid n
    → n.live ≡ true
    → n.count < n.capacity
    → w.chans chan_h ≡ some c
    → IsValid c
    → c.closed ≡ false
    → length (queue_of c).items < c.bound
    → c.bound ≤ 2 ^ 30
    → w.slots slot_h ≡ some old
    → 0 < at
    → 0 < n_h
    → 0 < chan_h
    → 0 < slot_h
    → (queue_of c).items ++ v ∷ [] ≡ x ∷ xs
    → IsI32 x
    → (spawned : World) × (ran : World) × (after : World) × (left : Chan)
      × (fx_async_nursery_spawn_send at true n_h chan_h v w ≡ (0, spawned))
      × (run_task n_h n.count spawned ≡ some ran)
      × (fx_async_chan_recv_slot chan_h slot_h ran ≡ some (0, after))
      × (fx_async_slot_get slot_h after ≡ x)
      × (after.args at ≡ none)
      × (after.chans chan_h ≡ some left)
      × ((queue_of left).items ≡ xs)
unfolding fx_async_slot_get
spawn_send-recv_slot at n_h chan_h slot_h v x old xs n c w e valid live room e_chan valid_chan
      unshut free few e_slot has_arg has_nursery has_chan has_slot split small =
    let (c', sent, valid', q) =
      send-Leaves c v valid_chan unshut free (within_int c valid_chan few) in
    let (left, got, valid'', q') = recv-Leaves c' x xs valid' (ap (λ q. q.items) q ∙ split) small in
    let w1 = queued at n_h chan_h v n w in
    let w2 = free_arg at (with_chan w1 chan_h c') in
    let w3 = into_slot slot_h x (with_chan w2 chan_h left) in
    let here = get_or-set_self n.slots n.count (sender at) blank (omega (arith, valid.whole)) in
    let task : task_at (w1.nurseries n_h) n.count ≡ some (sender at) = ground (arith, here) in
    let waits : w1.args at ≡ some (send_arg chan_h v) = ground arith in
    let there : w2.chans chan_h ≡ some c' = ground arith in
    let value : w3.slots slot_h ≡ some x = ground (arith, e_slot) in
    let whole = to_i32_of_IsI32 x small in
    (
      w1,
      w2,
      w3,
      left,
      spawn_send-queued at n_h chan_h v n w e live room has_arg has_nursery has_chan,
      run_task-sender n_h at n.count w1 task
          ∙ send_task-sent at chan_h v c c' w1 waits e_chan has_chan sent,
      recv_slot-stored chan_h slot_h x c' left w2 there has_chan has_slot got,
      ground (arith, value, whole),
      ground arith,
      ground arith,
      ap (λ q. q.items) q',
    )
