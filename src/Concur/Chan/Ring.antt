-- ===== src/Concur/Chan/Ring.antt =====
-- The window of the ring buffer of a channel (host/concur/fx_chan.c), as a list.
use native.Mathlib.Nat.{mod-eq_of_lt, mod-eq-sub-mod, add-mod_left, mod_self}
use fxlang.Prelude.{
  ℕ, zero, suc, ◌+◌, ◌-◌, ◌%◌, ◌≤◌, ◌<◌, ◌≡◌, refl, sym, ap, ◌∙◌, ◌⊎◌, inl, inr, List, [], ◌∷◌,
  ◌++◌, arith, dec_lt, ltb, if◌then◌else◌, ℤ, pos, get_or, set, get_or-set_ne,
}

-- The index after `h`, in a ring of `k`.
abbrev pub next : ℕ → ℕ → ℕ
next k h = if ltb (suc h) k then suc h else 0

-- The `n` values from index `h` on.
abbrev pub window : List ℤ → ℕ → ℕ → ℕ → List ℤ
window b k h zero = []
window b k h (suc n) = get_or b h (pos 0) ∷ window b k (next k h) n

pub next-mod : (k h : ℕ) → h < k → suc h % k ≡ next k h
next-mod k h below = elim (dec_lt (suc h) k) [
  | yes more ↦ grind (arith, mod-eq_of_lt more)
  | no last ↦ grind (arith, mod_self k)
]

-- The index `n` steps after `h` is at `(h + n) % k`.
step-mod : (k h n : ℕ) → h < k → (next k h + n) % k ≡ (h + suc n) % k
step-mod k h n below = elim (dec_lt (suc h) k) [
  | yes more ↦ grind arith
  | no last ↦ grind (arith, add-mod_left k n)
]

-- An index outside the window of `n` from `h`.
abbrev IsOutside : ℕ → ℕ → ℕ → ℕ → Type 0
IsOutside k h n t = (h + n ≤ t) ⊎ ((t < h) × (h + n ≤ t + k))

mod_over : (k s : ℕ) → k ≤ s → s < k + k → s % k ≡ s - k
mod_over k s past room = mod-eq-sub-mod past ∙ mod-eq_of_lt (omega arith)

pub mod-IsOutside : (k h n : ℕ) → h < k → n < k → IsOutside k h n ((h + n) % k)
mod-IsOutside k h n below room = elim (dec_lt (h + n) k) [
  | yes more ↦ inl (omega (arith, mod-eq_of_lt more))
  | no wraps ↦ inr (ground (arith, mod_over k (h + n)))
]

next-IsOutside :
    (k h n t : ℕ) → h < k → t < k → suc n < k → IsOutside k h (suc n) t → IsOutside k (next k h) n t
next-IsOutside k h n t below inside room outside = ground arith

pub window-set :
    (b : List ℤ) (k h n t : ℕ) (v : ℤ)
    → h < k
    → t < k
    → n < k
    → IsOutside k h n t
    → window (set b t v) k h n ≡ window b k h n
window-set b k h zero t v below inside room outside = refl
window-set b k h (suc n) t v below inside room outside = grind (
  arith,
  get_or-set_ne b {i = t} {j = h} v (pos 0) (ground arith),
  window-set b k (next k h) n t v (ground arith) inside (omega arith)
      (next-IsOutside k h n t below inside room outside),
)

pub window-snoc :
    (b : List ℤ) (k h n : ℕ)
    → h < k
    → window b k h (suc n) ≡ window b k h n ++ get_or b ((h + n) % k) (pos 0) ∷ []
window-snoc b k h zero below =
    ap (λ i. get_or b i (pos 0) ∷ []) (sym (mod-eq_of_lt {n = h + 0} (omega arith) ∙ (omega arith)))
window-snoc b k h (suc n) below = ap (get_or b h (pos 0) ∷◌) (
    window-snoc b k (next k h) n (ground arith)
    ∙ ap (λ i. window b k (next k h) n ++ get_or b i (pos 0) ∷ []) (step-mod k h n below))
