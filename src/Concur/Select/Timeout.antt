-- ===== src/Concur/Select/Timeout.antt =====
-- When `fx_select_recv2` (host/concur/fx_select.c) ends.
use fxlang.Prelude.{
  ℕ, zero, suc, ◌+◌, ◌%◌, ◌^◌, ◌≤◌, ◌<◌, ◌≡◌, refl, ◌∙◌, Bool, true, false, Option, none, some,
  arith, ◌==◌, Bool-cases, inl, inr, Option-cases, dec_lt,
}
use native.Mathlib.Nat.{mod-eq_of_lt}
use fxlang.Concur.Select.{Pair, Selected, round, out_of_time, select_loop, fx_select_recv2}

-- What the loop returns, and that it says FX_SEL_OK or FX_SEL_TIMEOUT.
abbrev Ends : Option Selected → Type 0
Ends o = (r : Selected) × (o ≡ some r)

ends : {o o' : Option Selected} → o ≡ o' → Ends o' → Ends o
ends e (r, e') = (r, e ∙ e')

select_loop-Ends :
    (others : ℕ → Pair → Pair) (timeout_ms fuel round_no waited : ℕ) (p : Pair)
    → timeout_ms + 1 < 2 ^ 32
    → waited ≤ timeout_ms + 1
    → timeout_ms + 1 < fuel + waited
    → Ends (select_loop others timeout_ms fuel round_no waited p)
unfolding select_loop
select_loop-Ends others timeout_ms zero round_no waited p small in_time enough =
    absurd (omega arith)
select_loop-Ends others timeout_ms (suc fuel) round_no waited p small in_time enough =
    elim (dec_lt timeout_ms waited) [
      | yes over ↦ (out_of_time p, ground arith)
      | no more ↦ elim (Option-cases (round p)) [
        | inr (got, e) ↦ (got, ground arith)
        | inl nothing ↦ elim (Bool-cases (timeout_ms == 0)) [
          | inl at_once ↦ (out_of_time p, ground arith)
          | inr later ↦
              ends (ground (arith, mod-eq_of_lt {n = suc waited} {m = 2 ^ 32} (omega arith))) (
                select_loop-Ends others timeout_ms fuel (suc round_no) (suc waited)
                  (others round_no p) small (omega arith) (omega arith))
        ]
      ]
    ]

-- With a timeout below 2 ^ 32 - 1, `fx_select_recv2` returns after at most one round more than the
-- timeout has milliseconds, whatever other threads do in the pauses.
pub fx_select_recv2_returns :
    (others : ℕ → Pair → Pair) (p : Pair) (has_out has_which : Bool) (timeout_ms : ℕ)
    → timeout_ms + 1 < 2 ^ 32
    → (r : Selected) × (fx_select_recv2 others (timeout_ms + 2) p has_out has_which timeout_ms
        ≡ some r)
unfolding fx_select_recv2
fx_select_recv2_returns others p false has_which timeout_ms small = (_, refl)
fx_select_recv2_returns others p true false timeout_ms small = (_, refl)
fx_select_recv2_returns others p true true timeout_ms small =
    select_loop-Ends others timeout_ms (timeout_ms + 2) 0 0 p small (omega arith) (omega arith)

select_loop_forever :
    (others : ℕ → Pair → Pair) (fuel round_no waited : ℕ) (p : Pair)
    → waited < 2 ^ 32
    → round p ≡ none
    → ((n : ℕ) → others n p ≡ p)
    → select_loop others 4294967295 fuel round_no waited p ≡ none
unfolding select_loop
select_loop_forever others zero round_no waited p small nothing same = refl
select_loop_forever others (suc fuel) round_no waited p small nothing same = ground (
  arith,
  same round_no,
  select_loop_forever others fuel (suc round_no) (suc waited % 2 ^ 32) p (omega arith) nothing same,
)

-- With the timeout 2 ^ 32 - 1, while neither channel has a value and no other thread changes them,
-- `fx_select_recv2` goes on for every number of rounds: the counter wraps before it exceeds it.
pub fx_select_recv2_forever :
    (others : ℕ → Pair → Pair) (fuel : ℕ) (p : Pair)
    → round p ≡ none
    → ((n : ℕ) → others n p ≡ p)
    → fx_select_recv2 others fuel p true true 4294967295 ≡ none
unfolding fx_select_recv2
fx_select_recv2_forever others fuel p nothing same =
    select_loop_forever others fuel 0 0 p (omega arith) nothing same
