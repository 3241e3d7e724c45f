-- ===== src/Edge/Time/Rand.antt =====
-- The step of the random numbers (host/std_time/ref.c, `fx_rand_next`).
use fxlang.Prelude.{ℕ, ◌+◌, ◌*◌, ◌%◌, ◌^◌, ◌≡◌, ◌<◌, ◌≢◌, ◌∙◌, arith, pos, to_i32_of_IsI32}
use fxlang.Edge.Time.{fx_rand_next}

-- The step on the states from 1 to 2 ^ 31 - 1.
step : ℕ → ℕ
step x = (x * 1664525 + 1013904223) % 2 ^ 32 % 2 ^ 31

step-injective : (x y : ℕ) → x < 2 ^ 31 → y < 2 ^ 31 → step x ≡ step y → x ≡ y
unfolding step
step-injective x y hx hy e = omega arith

-- On a positive state the seed is the state.
fx_rand_next-step : (x : ℕ) → 0 < x → x < 2 ^ 31 → fx_rand_next (pos x) ≡ pos (step x)
unfolding fx_rand_next step
fx_rand_next-step x some_seed small =
    let same : (x % 2 ^ 32) ≡ x = omega arith in
    to_i32_of_IsI32 (pos _) (omega arith) ∙ ground (arith, same)

step-lt : (x : ℕ) → step x < 2 ^ 31
unfolding step
step-lt x = omega arith

-- From a positive int32_t state `fx_rand_next` gives a number from 0 to 2 ^ 31 - 1, and from two
-- different ones two different numbers.
pub fx_rand_next_distinct :
    (x y : ℕ)
    → 0 < x
    → x < 2 ^ 31
    → 0 < y
    → y < 2 ^ 31
    → x ≢ y
    → (n : ℕ) × (m : ℕ) × (fx_rand_next (pos x) ≡ pos n)
      × (fx_rand_next (pos y) ≡ pos m)
      × (n < 2 ^ 31)
      × (m < 2 ^ 31)
      × (n ≢ m)
fx_rand_next_distinct x y hx x_small hy y_small other = (
  step x,
  step y,
  fx_rand_next-step x hx x_small,
  fx_rand_next-step y hy y_small,
  step-lt x,
  step-lt y,
  λ e. other (step-injective x y x_small y_small e),
)
