-- ===== src/Concur/Select.antt =====
-- Waiting for two channels (host/concur/fx_select.c): `fx_select_recv2` asks each in turn, about
-- once a millisecond.
pub mod Timeout
use fxlang.Prelude.{
  ℕ, zero, suc, ◌+◌, ◌-◌, ◌%◌, ◌^◌, ◌≤◌, ◌<◌, ◌≡◌, refl, ap, ◌∙◌, Bool, true, false, not, ◌||◌,
  Option, none, some, arith, leb, ◌==◌, if◌then◌else◌, ℤ, Bool-cases, inl, inr, Option-cases, ◌⊎◌,
}
use fxlang.Concur.Chan.{Chan, Outcome, rejects, sleeps, returns, chan_ok, fx_chan_try_recv}

abbrev pub sel_ok : ℕ
sel_ok = 0

abbrev pub sel_err : ℕ
sel_err = 1

abbrev pub sel_timeout : ℕ
sel_timeout = 5

pub record Pair : Type 0 where
  pub a : Option Chan
  pub b : Option Chan

-- The status, and on FX_SEL_OK the channel (`*which`) and the value (`*out`).
pub record Selected : Type 0 where
  pub status : ℕ
  pub which : ℕ
  pub out : Option ℤ
  pub chans : Pair

abbrev given : Outcome Chan → Option (Option ℤ × Chan)
given rejects = none
given sleeps = none
given (returns status out left wake) = if status == chan_ok then some (out, left) else none

-- `if (a) { rc = fx_chan_try_recv(a, out); if (rc == FX_CHAN_OK) ... }`
unfoldable pub poll : Option Chan → Option (Option ℤ × Chan)
unfolding fx_chan_try_recv
poll none = none
poll (some c) = given (fx_chan_try_recv (some c) true)

-- One round of the loop: `a` first, then `b`.
unfoldable pub round : Pair → Option Selected
unfolding poll
round p = elim (poll p.a) [
  | some (out, left) ↦
      some record { status = sel_ok; which = 0; out = out; chans = record p { a = some left } }
  | none ↦ elim (poll p.b) [
    | some (out, left) ↦
        some record { status = sel_ok; which = 1; out = out; chans = record p { b = some left } }
    | none ↦ none
  ]
]

abbrev pub out_of_time : Pair → Selected
out_of_time p = record { status = sel_timeout; which = 0; out = none; chans = p }

-- `others n p` is what other threads make of the channels in the `n`th pause; `waited` is a
-- uint32_t. `none` where the loop has not ended within the fuel.
unfoldable pub select_loop :
    (others : ℕ → Pair → Pair) → (timeout_ms fuel round_no waited : ℕ) → Pair → Option Selected
unfolding round
select_loop others timeout_ms zero round_no waited p = none
select_loop others timeout_ms (suc fuel) round_no waited p = elim (leb waited timeout_ms) [
  | false ↦ some (out_of_time p)
  | true ↦ elim (round p) [
    | some got ↦ some got
    | none ↦ elim (timeout_ms == 0) [
      | true ↦ some (out_of_time p)
      | false ↦
          select_loop others timeout_ms fuel (suc round_no) (suc waited % 2 ^ 32)
            (others round_no p)
    ]
  ]
]

unfoldable pub fx_select_recv2 :
    (others : ℕ → Pair → Pair)
    → (fuel : ℕ) → Pair
    → (has_out has_which : Bool) → (timeout_ms : ℕ) → Option Selected
unfolding select_loop
fx_select_recv2 others fuel p has_out has_which timeout_ms =
    if not has_out || not has_which
    then some record { status = sel_err; which = 0; out = none; chans = p }
    else select_loop others timeout_ms fuel 0 0 p
