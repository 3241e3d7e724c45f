-- ===== src/Concur/Chan/Lifecycle.antt =====
-- A channel from its creation to its end (host/concur/fx_chan.c).
use fxlang.Prelude.{
  ℕ, suc, ◌≡◌, refl, sym, ap, ◌-◌, ltb_ℤ, replicate, ◌∙◌, Bool, true, false, some, [], arith, ℤ,
  pos, negsuc, length-replicate, subst, if◌then◌else◌, pos_part,
}
use mathlib.Core.Option.{some-injective}
use fxlang.Concur.Chan.{Chan, fx_chan_create}
use fxlang.Concur.Chan.Queue.{queue_of, IsValid}

abbrev fresh : ℕ → Chan
fresh n = record { buf = replicate n (pos 0); bound = n; len = 0; head = 0; closed = false }

capped_lem :
    (capacity : ℤ)
    → (if ltb_ℤ capacity (pos 1) then pos 1 else capacity) ≡ pos (suc (pos_part capacity - 1))
capped_lem (pos n) = ground arith
capped_lem (negsuc n) = ground arith

-- When `fx_chan_create` returns a channel, it is valid, empty and open, and has room for as many
-- values as asked for, or for one when fewer than one are asked for.
pub fx_chan_create-IsValid :
    (capacity : ℤ) (has_chan has_buf has_lock : Bool) (c : Chan)
    → fx_chan_create capacity has_chan has_buf has_lock ≡ some c
    → IsValid c
      × (queue_of c ≡ record { items = []; room = suc (pos_part capacity - 1); shut = false })
      × (c.head ≡ 0)
unfolding fx_chan_create
fx_chan_create-IsValid capacity false b l c made = cc
fx_chan_create-IsValid capacity true false l c made = cc
fx_chan_create-IsValid capacity true true false c made = cc
fx_chan_create-IsValid capacity true true true c made =
    let n = suc (pos_part capacity - 1) in
    subst
      (λ c. IsValid c × (queue_of c ≡ record { items = []; room = n; shut = false }) × (c.head ≡ 0))
      (some-injective _ _ (sym (ap (λ z. some (fresh (pos_part z))) (capped_lem capacity)) ∙ made))
      (
        record {
          whole = length-replicate n (pos 0);
          some_room = omega arith;
          fits = omega arith;
          in_ring = omega arith;
        },
        refl,
        refl,
      )
