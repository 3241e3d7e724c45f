-- ===== src/Concur/Mailbox.antt =====
-- The mailbox (host/concur/fx_mailbox.c): a channel of its own, on the heap.
use fxlang.Prelude.{
  suc, arith, negsuc, pos, ◌^◌, ◌-◌, ◌≤◌, ◌≡◌, sym, ap, subst, ◌∙◌, Bool, true, false, not, Option,
  none, some, List, length, All, ℤ, pos_part, IsI32, if◌then◌else◌,
}
use fxlang.Concur.Chan.{
  Chan, Outcome, rejects, fx_chan_create, fx_chan_send, fx_chan_recv, fx_chan_close,
}
use fxlang.Concur.Chan.Queue.{length-window}
use fxlang.Concur.Chan.Lifecycle.{fx_chan_create-IsValid}
use fxlang.Concur.Chan.RoundTrip.{send_all, recv_all, send_all-recv_all}

pub record Mailbox : Type 0 where
  pub ch : Chan

abbrev boxed : Option Chan → Option Mailbox
boxed none = none
boxed (some c) = some record { ch = c }

-- The first flag says whether the `calloc` of the mailbox succeeds, the others are the channel's.
unfoldable pub fx_mb_create : ℤ → (has_box has_chan has_buf has_lock : Bool) → Option Mailbox
unfolding fx_chan_create
fx_mb_create capacity has_box has_chan has_buf has_lock =
    if not has_box then none else boxed (fx_chan_create capacity has_chan has_buf has_lock)

unfoldable pub fx_mb_send : Option Mailbox → ℤ → Outcome Chan
unfolding fx_chan_send
fx_mb_send none v = rejects
fx_mb_send (some m) v = fx_chan_send (some m.ch) v

unfoldable pub fx_mb_recv : Option Mailbox → (has_out : Bool) → Outcome Chan
unfolding fx_chan_recv
fx_mb_recv none has_out = rejects
fx_mb_recv (some m) has_out = fx_chan_recv (some m.ch) has_out

unfoldable pub fx_mb_close : Option Mailbox → Outcome Chan
unfolding fx_chan_close
fx_mb_close none = rejects
fx_mb_close (some m) = fx_chan_close (some m.ch)

boxed-some : (o : Option Chan) (m : Mailbox) → boxed o ≡ some m → o ≡ some m.ch
boxed-some none m e = cc
boxed-some (some c) m e = cc

capped_IsI32 : (capacity : ℤ) → IsI32 capacity → suc (pos_part capacity - 1) ≤ 2 ^ 31
capped_IsI32 (pos n) int = omega arith
capped_IsI32 (negsuc n) int = omega arith

-- A mailbox that `fx_mb_create` returned takes messages of int32_t without waiting, as many as the
-- capacity of int asked for or one if that is less than one, and as many receives give them back in
-- order.
pub fx_mb_create_delivers :
    (capacity : ℤ) (has_box has_chan has_buf has_lock : Bool) (m : Mailbox) (vs : List ℤ)
    → fx_mb_create capacity has_box has_chan has_buf has_lock ≡ some m
    → IsI32 capacity
    → All IsI32 vs
    → length vs ≤ suc (pos_part capacity - 1)
    → (left : Chan) × (send_all m.ch vs ≡ some left) × (recv_all left (length vs) ≡ vs)
unfolding fx_mb_create
fx_mb_create_delivers capacity false has_chan has_buf has_lock m vs made int small room = cc
fx_mb_create_delivers capacity true has_chan has_buf has_lock m vs made int small room =
    let (valid, q, start) =
      fx_chan_create-IsValid capacity has_chan has_buf has_lock m.ch (boxed-some _ m made) in
    send_all-recv_all m.ch vs valid (ap (λ q. q.shut) q)
      (sym (length-window m.ch.buf m.ch.bound m.ch.head m.ch.len) ∙ ap (λ q. length q.items) q)
      start small (subst (λ n. length vs ≤ n) (sym (ap (λ q. q.room) q)) room)
      (omega (arith, capped_IsI32 capacity int))
