-- ===== src/Concur/Chan/RoundTrip.antt =====
-- Series of calls on a channel (host/concur/fx_chan.c): what is sent is received, in order.
use fxlang.Prelude.{
  ℕ, zero, suc, ◌+◌, ◌≤◌, ◌<◌, ◌≡◌, refl, sym, ap, ◌==◌, ◌∙◌, true, false, Option, none, some, List,
  [], ◌∷◌, ◌++◌, append-nil, append_assoc, arith, ℤ, IsI32, to_i32_of_IsI32, length, length-append,
  ◌^◌, All, subst, if◌then◌else◌,
}
use fxlang.Concur.Chan.{
  Chan, Outcome, Wake, rejects, sleeps, returns, signal_not_empty, signal_not_full, chan_ok, narrow,
  fx_chan_send, fx_chan_send_i64, fx_chan_recv,
}
use fxlang.Concur.Chan.Ring.{window}
use fxlang.Concur.Chan.Queue.{
  length-window, Queue, queue_of, IsValid, Implements, recv_queue, fx_chan_send_i64-Implements,
  fx_chan_recv_i64-Implements,
}

-- What follows a call that succeeds.
abbrev and_then : Outcome Chan → (Chan → Option Chan) → Option Chan
and_then rejects f = none
and_then sleeps f = none
and_then (returns status out left wake) f = if status == chan_ok then f left else none

-- The channel after a series of calls of `fx_chan_send`, if every one of them succeeds.
unfoldable pub send_all : Chan → List ℤ → Option Chan
unfolding fx_chan_send
send_all c [] = some c
send_all c (v ∷ vs) = and_then (fx_chan_send (some c) v) (λ left. send_all left vs)

abbrev out_then : Outcome Chan → (Chan → List ℤ) → List ℤ
out_then rejects f = []
out_then sleeps f = []
out_then (returns status none left wake) f = []
out_then (returns status (some v) left wake) f = v ∷ f left

-- What the next calls of `fx_chan_recv` give, up to the first that gives nothing.
unfoldable pub recv_all : Chan → ℕ → List ℤ
unfolding fx_chan_recv
recv_all c zero = []
recv_all c (suc n) = out_then (fx_chan_recv (some c) true) (λ left. recv_all left n)

-- What a call on a channel does where the call on its queue returns.
abbrev pub Leaves : Outcome Chan → ℕ → Option ℤ → Queue → Wake → Type 0
Leaves o status out q wake =
    (c : Chan) × (o ≡ returns status out c wake) × IsValid c × (queue_of c ≡ q)

leaves :
    (o : Outcome Chan) (status : ℕ) (out : Option ℤ) (q : Queue) (wake : Wake)
    → Implements o (returns status out q wake)
    → Leaves o status out q wake
leaves rejects status out q wake i = cc
leaves sleeps status out q wake i = cc
leaves (returns status' out' c wake') status out q wake (valid, i) = (c, cc, valid, cc)

pub send-Leaves :
    (c : Chan) (v : ℤ)
    → IsValid c
    → c.closed ≡ false
    → length (queue_of c).items < c.bound
    → c.head + c.len < 2 ^ 31
    → Leaves
        (fx_chan_send (some c) v)
        chan_ok
        none
        (record (queue_of c) { items = (queue_of c).items ++ v ∷ [] })
        signal_not_empty
unfolding fx_chan_send
send-Leaves c v valid unshut room within =
    leaves _ _ _ _ _
      (subst (Implements _) (ground arith) (fx_chan_send_i64-Implements c v valid within))

-- A send leaves the head where it is.
send-head :
    (c left : Chan) (v : ℤ)
    → fx_chan_send (some c) v ≡ returns chan_ok none left signal_not_empty
    → left.head ≡ c.head
unfolding fx_chan_send fx_chan_send_i64
send-head c left v e = ground arith

pub recv-Leaves :
    (c : Chan) (v : ℤ) (vs : List ℤ)
    → IsValid c
    → (queue_of c).items ≡ v ∷ vs
    → IsI32 v
    → Leaves
        (fx_chan_recv (some c) true)
        chan_ok
        (some v)
        (record (queue_of c) { items = vs })
        signal_not_full
unfolding fx_chan_recv
recv-Leaves c v vs valid queued small =
    let got =
      leaves _ chan_ok (some v) (record (queue_of c) { items = vs }) signal_not_full
        (subst (Implements _) (ap (λ w. recv_queue (record (queue_of c) { items = w })) queued)
          (fx_chan_recv_i64-Implements c valid)) in
    (
      got.0,
      ap narrow got.1
          ∙ ap (λ x. returns chan_ok (some x) got.0 signal_not_full) (to_i32_of_IsI32 v small),
      got.2,
      got.3,
    )

send_all-queue :
    (vs : List ℤ) (c : Chan)
    → IsValid c
    → c.closed ≡ false
    → length (queue_of c).items + length vs ≤ c.bound
    → c.head + length (queue_of c).items + length vs ≤ 2 ^ 31
    → (left : Chan) × (send_all c vs ≡ some left)
      × IsValid left
      × (queue_of left ≡ record (queue_of c) { items = (queue_of c).items ++ vs })
unfolding send_all
send_all-queue [] c valid unshut room within =
    (c, refl, valid, ap (λ w. record (queue_of c) { items = w }) (sym (append-nil _)))
send_all-queue (v ∷ vs) c valid unshut room within =
    let (next, e, valid_next, q) =
      send-Leaves c v valid unshut (omega arith)
        (omega (arith, length-window c.buf c.bound c.head c.len)) in
    let (left, e_rest, valid_left, q_rest) =
      send_all-queue vs next valid_next (ap (λ q. q.shut) q ∙ unshut)
        (omega (
          arith,
          ap (λ q. length q.items) q,
          ap (λ q. q.room) q,
          length-append (queue_of c).items (v ∷ []),
        ))
        (omega (
          arith,
          ap (λ q. length q.items) q,
          send-head c next v e,
          length-append (queue_of c).items (v ∷ []),
        )) in
    (
      left,
      ap (λ o. and_then o (λ left. send_all left vs)) e ∙ e_rest,
      valid_left,
      q_rest
          ∙ ap {A = Queue} (λ q. record q { items = q.items ++ vs }) q
          ∙ ap {B = Queue} (λ w. record (queue_of c) { items = w })
              (append_assoc (queue_of c).items (v ∷ []) vs),
    )

recv_all-queue :
    (vs : List ℤ) (c : Chan)
    → IsValid c
    → (queue_of c).items ≡ vs
    → All IsI32 vs
    → recv_all c (length vs) ≡ vs
unfolding recv_all
recv_all-queue [] c valid queued small = refl
recv_all-queue (v ∷ vs) c valid queued (small_v, small) =
    let (left, e, valid_left, q) = recv-Leaves c v vs valid queued small_v in
    ap (λ o. out_then o (λ left. recv_all left (length vs))) e
    ∙ ap (v ∷◌) (recv_all-queue vs left valid_left (ap (λ q. q.items) q) small)

-- On a valid open channel with nothing queued at the start of its ring, no more values of int32_t than it has room for are
-- all sent without waiting, and as many calls of `fx_chan_recv` then give them back in order.
pub send_all-recv_all :
    (c : Chan) (vs : List ℤ)
    → IsValid c
    → c.closed ≡ false
    → c.len ≡ 0
    → c.head ≡ 0
    → All IsI32 vs
    → length vs ≤ c.bound
    → length vs ≤ 2 ^ 31
    → (left : Chan) × (send_all c vs ≡ some left) × (recv_all left (length vs) ≡ vs)
send_all-recv_all c vs valid unshut empty start small room within =
    let nothing = ap (window c.buf c.bound c.head) empty in
    let (left, e, valid_left, q) =
      send_all-queue vs c valid unshut (omega (arith, ap length nothing))
        (omega (arith, ap length nothing)) in
    (
      left,
      e,
      recv_all-queue vs left valid_left (ap (λ q. q.items) q ∙ ap (λ w. w ++ vs) nothing) small,
    )
