-- ===== src/Concur/Chan/Traffic.antt =====
-- What goes through a channel (host/concur/fx_chan.c) that any number of threads send on, receive from
-- and close: the values that the sends took, and those that the receives gave.
use fxlang.Prelude.{
  ℕ, ◌-◌, ◌^◌, ◌≤◌, ◌≡◌, refl, sym, ap, subst, ◌∙◌, ◌==◌, Bool, true, Option, none, some, List, [],
  ◌∷◌, ◌++◌, append-nil, append_assoc, arith, ℤ, IsI32, to_i32_of_IsI32, All, if◌then◌else◌,
}
use fxlang.Concur.Chan.{
  Chan, Outcome, Wake, rejects, sleeps, returns, wake_none, signal_not_empty, signal_not_full,
  broadcast_both, chan_ok, fx_chan_send_i64, fx_chan_recv_i64, fx_chan_try_recv, fx_chan_close,
}
use fxlang.Concur.Chan.Queue.{
  Queue, queue_of, IsValid, within_int, Implements, push_queue, recv_queue, try_queue,
  fx_chan_send_i64-Implements, fx_chan_recv_i64-Implements, fx_chan_try_recv-Implements,
}
use fxlang.Concur.Chan.Wakeups.{
  Threads, Step, Steps, stays, moves, recv_call, recv_again, send_call, send_again, try_recv_call,
  close_call, reader_stirs, writer_stirs, wake_up, settle_reader, settle_writer,
}

-- The value of a send that returned FX_CHAN_OK, and the one that a receive wrote to `*out`.
abbrev taken : Outcome Chan → ℤ → List ℤ
taken rejects v = []
taken sleeps v = []
taken (returns status out left wake) v = if status == chan_ok then v ∷ [] else []

abbrev written : Option ℤ → List ℤ
written none = []
written (some v) = v ∷ []

abbrev given : Outcome Chan → List ℤ
given rejects = []
given sleeps = []
given (returns status out left wake) = written out

abbrev sent_in : {s t : Threads} → Step s t → List ℤ
sent_in {s = s} (send_call v) = taken (fx_chan_send_i64 (some s.chan) v) v
sent_in {s = s} (send_again v some_woken) = taken (fx_chan_send_i64 (some s.chan) v) v
sent_in recv_call = []
sent_in (recv_again some_woken) = []
sent_in try_recv_call = []
sent_in close_call = []
sent_in (reader_stirs some_asleep) = []
sent_in (writer_stirs some_asleep) = []

abbrev received_in : {s t : Threads} → Step s t → List ℤ
received_in {s = s} recv_call = given (fx_chan_recv_i64 (some s.chan) true)
received_in {s = s} (recv_again some_woken) = given (fx_chan_recv_i64 (some s.chan) true)
received_in {s = s} try_recv_call = given (fx_chan_try_recv (some s.chan) true)
received_in (send_call v) = []
received_in (send_again v some_woken) = []
received_in close_call = []
received_in (reader_stirs some_asleep) = []
received_in (writer_stirs some_asleep) = []

-- The values in the order in which the calls took the lock.
abbrev pub sent : {s t : Threads} → Steps s t → List ℤ
sent stays = []
sent (moves before last) = sent before ++ sent_in last

abbrev pub received : {s t : Threads} → Steps s t → List ℤ
received stays = []
received (moves before last) = received before ++ received_in last

abbrev pub items : Threads → List ℤ
items s = (queue_of s.chan).items

-- From one state to another, with the values that went in and out.
abbrev Passes : Chan → List ℤ → List ℤ → Chan → Type 0
Passes c ins outs d =
    IsValid d × (d.bound ≡ c.bound) × ((queue_of c).items ++ ins ≡ outs ++ (queue_of d).items)

-- The channel that an outcome leaves.
abbrev left_of : Outcome Chan → Chan → Chan
left_of rejects c = c
left_of sleeps c = c
left_of (returns status out left wake) c = left

wake_up-chan : (w : Wake) (s : Threads) → (wake_up w s).chan ≡ s.chan
wake_up-chan wake_none s = refl
wake_up-chan signal_not_empty s = ground arith
wake_up-chan signal_not_full s = ground arith
wake_up-chan broadcast_both s = refl

settle_reader-chan : (o : Outcome Chan) (s : Threads) → (settle_reader o s).chan ≡ left_of o s.chan
settle_reader-chan rejects s = refl
settle_reader-chan sleeps s = refl
settle_reader-chan (returns status out left wake) s = wake_up-chan wake (record s { chan = left })

settle_writer-chan : (o : Outcome Chan) (s : Threads) → (settle_writer o s).chan ≡ left_of o s.chan
settle_writer-chan rejects s = refl
settle_writer-chan sleeps s = refl
settle_writer-chan (returns status out left wake) s = wake_up-chan wake (record s { chan = left })

push_queue-items :
    (q : Queue) (v : ℤ) (status : ℕ) (out : Option ℤ) (q' : Queue) (wake : Wake)
    → returns status out q' wake ≡ push_queue q v
    → (q'.room ≡ q.room) × (q.items ++ (if status == chan_ok then v ∷ [] else []) ≡ q'.items)
push_queue-items q v status out q' wake i = (ground arith, ground (arith, append-nil q.items))

recv_queue-items :
    (xs : List ℤ) (room : ℕ) (shut : Bool) (status : ℕ) (out : Option ℤ) (q' : Queue) (wake : Wake)
    → returns status out q' wake ≡ recv_queue (record { items = xs; room = room; shut = shut })
    → (q'.room ≡ room) × (xs ++ [] ≡ written out ++ q'.items)
recv_queue-items [] room shut status out q' wake i = (ground arith, ground arith)
recv_queue-items (x ∷ xs) room shut status out q' wake i =
    (ground arith, ground (arith, append-nil xs))

try_queue-items :
    (xs : List ℤ) (room : ℕ) (shut : Bool) (status : ℕ) (out : Option ℤ) (q' : Queue) (wake : Wake)
    → All IsI32 xs
    → returns status out q' wake ≡ try_queue (record { items = xs; room = room; shut = shut })
    → (q'.room ≡ room) × (xs ++ [] ≡ written out ++ q'.items)
try_queue-items [] room shut status out q' wake small i = (ground arith, ground arith)
try_queue-items (x ∷ xs) room shut status out q' wake (h, small) i =
    (ground arith, ground (arith, append-nil xs, to_i32_of_IsI32 x h))

push-Passes :
    (c : Chan) (v : ℤ) (o : Outcome Chan)
    → IsValid c
    → Implements o (push_queue (queue_of c) v)
    → Passes c (taken o v) [] (left_of o c)
push-Passes c v rejects valid i = (valid, refl, append-nil _)
push-Passes c v sleeps valid i = (valid, refl, append-nil _)
push-Passes c v (returns status out left wake) valid (valid', i) =
    let (same, e) = push_queue-items (queue_of c) v status out (queue_of left) wake i in
    (valid', same, e)

recv-Passes :
    (c : Chan) (o : Outcome Chan)
    → IsValid c
    → Implements o (recv_queue (queue_of c))
    → Passes c [] (given o) (left_of o c)
recv-Passes c rejects valid i = (valid, refl, append-nil _)
recv-Passes c sleeps valid i = (valid, refl, append-nil _)
recv-Passes c (returns status out left wake) valid (valid', i) =
    let (same, e) =
      recv_queue-items (queue_of c).items c.bound c.closed status out (queue_of left) wake i in
    (valid', same, e)

try-Passes :
    (c : Chan) (o : Outcome Chan)
    → IsValid c
    → All IsI32 (queue_of c).items
    → Implements o (try_queue (queue_of c))
    → Passes c [] (given o) (left_of o c)
try-Passes c rejects valid small i = (valid, refl, append-nil _)
try-Passes c sleeps valid small i = (valid, refl, append-nil _)
try-Passes c (returns status out left wake) valid small (valid', i) =
    let (same, e) =
      try_queue-items (queue_of c).items c.bound c.closed status out (queue_of left) wake small i in
    (valid', same, e)

close-Passes : (c : Chan) → IsValid c → Passes c [] [] (left_of (fx_chan_close (some c)) c)
unfolding fx_chan_close
close-Passes c valid = (
  record {
    whole = valid.whole;
    some_room = valid.some_room;
    fits = valid.fits;
    in_ring = valid.in_ring;
  },
  refl,
  append-nil _,
)

Step-Passes :
    {s t : Threads} (step : Step s t)
    → IsValid s.chan
    → s.chan.bound ≤ 2 ^ 30
    → All IsI32 (items s)
    → Passes s.chan (sent_in step) (received_in step) t.chan
Step-Passes {s = s} recv_call valid few small =
    let o = fx_chan_recv_i64 (some s.chan) true in
    subst (Passes s.chan [] (given o)) (sym (settle_reader-chan o s))
      (recv-Passes s.chan o valid (fx_chan_recv_i64-Implements s.chan valid))
Step-Passes {s = s} (recv_again some_woken) valid few small =
    let o = fx_chan_recv_i64 (some s.chan) true in
    subst (Passes s.chan [] (given o))
      (sym (settle_reader-chan o (record s { woken_readers = s.woken_readers - 1 })))
      (recv-Passes s.chan o valid (fx_chan_recv_i64-Implements s.chan valid))
Step-Passes {s = s} (send_call v) valid few small =
    let o = fx_chan_send_i64 (some s.chan) v in
    subst (Passes s.chan (taken o v) []) (sym (settle_writer-chan o s)) (
      push-Passes s.chan v o valid
        (fx_chan_send_i64-Implements s.chan v valid (within_int s.chan valid few)))
Step-Passes {s = s} (send_again v some_woken) valid few small =
    let o = fx_chan_send_i64 (some s.chan) v in
    subst (Passes s.chan (taken o v) [])
      (sym (settle_writer-chan o (record s { woken_writers = s.woken_writers - 1 })))
      (push-Passes s.chan v o valid
        (fx_chan_send_i64-Implements s.chan v valid (within_int s.chan valid few)))
Step-Passes {s = s} try_recv_call valid few small =
    let o = fx_chan_try_recv (some s.chan) true in
    subst (Passes s.chan [] (given o)) (sym (settle_reader-chan o s))
      (try-Passes s.chan o valid small (fx_chan_try_recv-Implements s.chan valid))
Step-Passes {s = s} close_call valid few small =
    subst (Passes s.chan [] []) (sym (settle_reader-chan (fx_chan_close (some s.chan)) s))
      (close-Passes s.chan valid)
Step-Passes (reader_stirs some_asleep) valid few small = (valid, refl, append-nil _)
Step-Passes (writer_stirs some_asleep) valid few small = (valid, refl, append-nil _)

All-split : (xs ys : List ℤ) → All IsI32 (xs ++ ys) → All IsI32 xs × All IsI32 ys
All-split [] ys all = (tt, all)
All-split (x ∷ xs) ys (h, all) = let (left, right) = All-split xs ys all in ((h, left), right)

-- Two runs one after the other.
passes-append :
    (xs a a' b b' ys zs : List ℤ)
    → xs ++ a ≡ b ++ ys
    → ys ++ a' ≡ b' ++ zs
    → xs ++ (a ++ a') ≡ (b ++ b') ++ zs
passes-append xs a a' b b' ys zs e e' =
    sym (append_assoc xs a a')
    ∙ ap (λ l. l ++ a') e
    ∙ append_assoc b ys a'
    ∙ ap (λ l. b ++ l) e'
    ∙ sym (append_assoc b b' zs)

-- For a channel that starts valid with at most 2 ^ 30 slots, with values of int32_t in it and sent on it: whatever any number of
-- threads do, in whatever order they take the lock, sleep and wake, the values received so far and
-- those still in the channel are those that lay in it at first and those sent since, each exactly
-- once and in the order of the sends; and the channel stays valid, with the same number of slots.
pub Steps-fifo :
    {s t : Threads} (steps : Steps s t)
    → IsValid s.chan
    → s.chan.bound ≤ 2 ^ 30
    → All IsI32 (items s ++ sent steps)
    → IsValid t.chan
      × (t.chan.bound ≡ s.chan.bound)
      × (items s ++ sent steps ≡ received steps ++ items t)
Steps-fifo stays valid few small = (valid, refl, append-nil _)
Steps-fifo {s = s} {t = t} (moves {t = u} before last) valid few small =
    let (first, rest) =
      All-split (items s ++ sent before) (sent_in last)
        (subst (All IsI32) (sym (append_assoc (items s) (sent before) (sent_in last))) small) in
    let (valid', same, e) = Steps-fifo before valid few first in
    let (gone, there) = All-split (received before) (items u) (subst (All IsI32) e first) in
    let (valid'', same', e') = Step-Passes last valid' (omega arith) there in
    (
      valid'',
      same' ∙ same,
      passes-append (items s) (sent before) (sent_in last) (received before) (received_in last)
          (items u) (items t) e e',
    )
