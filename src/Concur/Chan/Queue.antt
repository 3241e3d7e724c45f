-- ===== src/Concur/Chan/Queue.antt =====
-- The channel (host/concur/fx_chan.c) as a queue: what a caller may rely on, without the ring.
use fxlang.Prelude.{
  ℕ, zero, suc, ◌+◌, ◌-◌, ◌%◌, ◌^◌, ◌≤◌, ◌<◌, ◌≡◌, inl, inr, refl, sym, ap, subst, Bool-cases,
  dec_lt, ◌∙◌, Bool, true, none, some, List, [], ◌∷◌, ◌++◌, arith, leb, if◌then◌else◌, ℤ, pos,
  get_or, set, length, length-set, get_or-set_self, to_i32,
}
use native.Mathlib.Nat.{mod-lt}
use fxlang.Concur.Chan.{
  Chan, Outcome, rejects, sleeps, returns, wake_none, signal_not_empty, signal_not_full, chan_ok,
  chan_closed, chan_empty, narrow, fx_chan_send_i64, fx_chan_recv_i64, fx_chan_try_recv,
}
use fxlang.Concur.Chan.Ring.{window, next, window-set, window-snoc, mod-IsOutside, next-mod}

-- A bounded queue that can be shut.
pub record Queue : Type 0 where
  pub items : List ℤ
  pub room : ℕ
  pub shut : Bool

abbrev pub queue_of : Chan → Queue
queue_of c = record { items = window c.buf c.bound c.head c.len; room = c.bound; shut = c.closed }

-- The ring is as long as its bound, which is positive, and the indices are within it.
pub record IsValid (c : Chan) : Type 0 where
  pub whole : length c.buf ≡ c.bound
  pub some_room : 1 ≤ c.bound
  pub fits : c.len ≤ c.bound
  pub in_ring : c.head < c.bound

abbrev pub push_queue : Queue → ℤ → Outcome Queue
push_queue q v =
    if q.shut
    then returns chan_closed none q wake_none
    else if leb q.room (length q.items)
    then sleeps
    else returns chan_ok none (record q { items = q.items ++ v ∷ [] }) signal_not_empty

-- `otherwise` is the outcome when nothing is queued.
abbrev pub pop_queue : Queue → (otherwise : Outcome Queue) → Outcome Queue
pop_queue q otherwise = elim q.items [
  | [] ↦ otherwise
  | v ∷ rest ↦ returns chan_ok (some v) (record q { items = rest }) signal_not_full
]

abbrev pub recv_queue : Queue → Outcome Queue
recv_queue q = pop_queue q (if q.shut then returns chan_closed none q wake_none else sleeps)

abbrev pub try_queue : Queue → Outcome Queue
try_queue q =
    narrow (pop_queue q (returns (if q.shut then chan_closed else chan_empty) none q wake_none))

-- A call on a channel implements one on its queue: it leaves a valid channel, and what it does is
-- what the queue does.
abbrev pub Implements : Outcome Chan → Outcome Queue → Type 0
Implements rejects r = rejects ≡ r
Implements sleeps r = sleeps ≡ r
Implements (returns status out left wake) r =
    IsValid left × (returns status out (queue_of left) wake ≡ r)

-- In a valid channel with no more than 2 ^ 30 slots the index of a write is within int.
pub within_int : (c : Chan) → IsValid c → c.bound ≤ 2 ^ 30 → c.head + c.len < 2 ^ 31
within_int c valid few = omega (arith, valid.fits, valid.in_ring)

pub length-window : (b : List ℤ) (k h n : ℕ) → length (window b k h n) ≡ n
length-window b k h n = by_count n h
  where
    by_count : (n h : ℕ) → length (window b k h n) ≡ n
    by_count zero h = refl
    by_count (suc n) h = ap suc (by_count n (next k h))

implements :
    {o o' : Outcome Chan} {r r' : Outcome Queue}
    → o ≡ o'
    → r ≡ r'
    → Implements o' r'
    → Implements o r
implements {o = o} {r' = r'} p q i =
    subst (Implements o) (sym q) (subst (λ o. Implements o r') (sym p) i)

pushed-IsValid :
    (c : Chan) (v : ℤ)
    → IsValid c
    → c.len < c.bound
    → IsValid (record c { buf = set c.buf ((c.head + c.len) % c.bound) v; len = suc c.len })
pushed-IsValid c v valid room = record {
  whole = length-set c.buf _ v ∙ valid.whole;
  some_room = valid.some_room;
  fits = omega arith;
  in_ring = valid.in_ring;
}

pushed-window :
    (c : Chan) (v : ℤ)
    → IsValid c
    → c.len < c.bound
    → window (set c.buf ((c.head + c.len) % c.bound) v) c.bound c.head (suc c.len)
      ≡ window c.buf c.bound c.head c.len ++ v ∷ []
pushed-window c v valid room =
    let t = (c.head + c.len) % c.bound in
    window-snoc (set c.buf t v) c.bound c.head c.len valid.in_ring
    ∙ ap (λ w. w ++ get_or (set c.buf t v) t (pos 0) ∷ [])
        (window-set c.buf c.bound c.head c.len t v valid.in_ring (mod-lt _ valid.some_room) room
          (mod-IsOutside c.bound c.head c.len valid.in_ring room))
    ∙ ap (λ x. window c.buf c.bound c.head c.len ++ x ∷ [])
        (get_or-set_self c.buf t v (pos 0)
          (ground (arith, mod-lt (c.head + c.len) valid.some_room)))

-- A send on a valid channel does what appending to its queue does: on a closed channel the answer is
-- FX_CHAN_CLOSED, on a full one the caller sleeps, and else the value is appended and a reader
-- signalled; the channel that it leaves is valid. The index of the write is within int.
pub fx_chan_send_i64-Implements :
    (c : Chan) (v : ℤ)
    → IsValid c
    → c.head + c.len < 2 ^ 31
    → Implements (fx_chan_send_i64 (some c) v) (push_queue (queue_of c) v)
unfolding fx_chan_send_i64
fx_chan_send_i64-Implements c v valid within = elim (Bool-cases c.closed) [
  | inl shut ↦
      implements {o' = returns chan_closed none c wake_none} (ground arith) (ground arith)
        (valid, refl)
  | inr unshut ↦ elim (dec_lt c.len c.bound) [
    | no full ↦
        implements {o' = sleeps} {r' = sleeps} (ground arith)
          (ground (arith, length-window c.buf c.bound c.head c.len)) refl
    | yes room ↦
        implements
          {o' = returns chan_ok none
            (record c { buf = set c.buf ((c.head + c.len) % c.bound) v; len = suc c.len })
            signal_not_empty}
          {r' = returns chan_ok none
            (record (queue_of c) { items = window c.buf c.bound c.head c.len ++ v ∷ [] })
            signal_not_empty}
          (ground arith) (ground (arith, length-window c.buf c.bound c.head c.len))
          (
            pushed-IsValid c v valid room,
            ap (λ w. returns chan_ok none (record (queue_of c) { items = w }) signal_not_empty)
                (pushed-window c v valid room),
          )
  ]
]

-- What is left of a channel when its first value is taken.
abbrev shifted : Chan → Chan
shifted c = record c { head = suc c.head % c.bound; len = c.len - 1 }

shifted-IsValid : (c : Chan) → IsValid c → IsValid (shifted c)
shifted-IsValid c valid = record {
  whole = valid.whole;
  some_room = valid.some_room;
  fits = omega arith;
  in_ring = mod-lt _ valid.some_room;
}

shifted-window :
    (c : Chan)
    → IsValid c
    → 0 < c.len
    → window c.buf c.bound c.head c.len
      ≡ get_or c.buf c.head (pos 0) ∷ window c.buf c.bound (suc c.head % c.bound) (c.len - 1)
shifted-window c valid some_len =
    ap (window c.buf c.bound c.head) {y = suc (c.len - 1)} (omega arith)
    ∙ ap (λ h. get_or c.buf c.head (pos 0) ∷ window c.buf c.bound h (c.len - 1))
        (sym (next-mod c.bound c.head valid.in_ring))

abbrev first_of : Chan → ℤ
first_of c = get_or c.buf c.head (pos 0)

pop-shifted :
    (c : Chan) (r : Outcome Queue)
    → IsValid c
    → 0 < c.len
    → pop_queue (queue_of c) r
      ≡ returns chan_ok (some (first_of c)) (queue_of (shifted c)) signal_not_full
pop-shifted c r valid some_len =
    ap (λ w. pop_queue (record (queue_of c) { items = w }) r) (shifted-window c valid some_len)

pop-empty : (c : Chan) (r : Outcome Queue) → c.len ≡ 0 → pop_queue (queue_of c) r ≡ r
pop-empty c r none_left =
    ap (λ n. pop_queue (record (queue_of c) { items = window c.buf c.bound c.head n }) r) none_left

-- A receive on a valid channel takes the first value of its queue, if there is one, and signals a
-- writer; on an empty queue it answers FX_CHAN_CLOSED if the channel is closed and sleeps if not. The
-- channel that it leaves is valid.
pub fx_chan_recv_i64-Implements :
    (c : Chan) → IsValid c → Implements (fx_chan_recv_i64 (some c) true) (recv_queue (queue_of c))
unfolding fx_chan_recv_i64
fx_chan_recv_i64-Implements c valid = elim (dec_lt 0 c.len) [
  | yes some_len ↦
      implements {o' = returns chan_ok (some (first_of c)) (shifted c) signal_not_full}
        (ground arith) (pop-shifted c _ valid some_len) (shifted-IsValid c valid, refl)
  | no none_left ↦ elim (Bool-cases c.closed) [
    | inl shut ↦
        implements {o' = returns chan_closed none c wake_none}
          {r' = returns chan_closed none (queue_of c) wake_none} (ground arith)
          (pop-empty c _ (omega arith) ∙ ground arith) (valid, refl)
    | inr unshut ↦
        implements {o' = sleeps} {r' = sleeps} (ground arith)
          (pop-empty c _ (omega arith) ∙ ground arith) refl
  ]
]

-- `fx_chan_try_recv` on a valid channel takes the first value of its queue, if there is one, as an
-- int32_t, and else answers FX_CHAN_CLOSED or FX_CHAN_EMPTY; the channel that it leaves is valid.
pub fx_chan_try_recv-Implements :
    (c : Chan) → IsValid c → Implements (fx_chan_try_recv (some c) true) (try_queue (queue_of c))
unfolding fx_chan_try_recv
fx_chan_try_recv-Implements c valid = elim (dec_lt 0 c.len) [
  | yes some_len ↦
      implements {o' = returns chan_ok (some (to_i32 (first_of c))) (shifted c) signal_not_full}
        (ground arith) (ap narrow (pop-shifted c _ valid some_len)) (shifted-IsValid c valid, refl)
  | no none_left ↦
      implements {o' = returns (if c.closed then chan_closed else chan_empty) none c wake_none}
        (ground arith) (ap narrow (pop-empty c _ (omega arith))) (valid, refl)
]
