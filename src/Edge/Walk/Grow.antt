-- ===== src/Edge/Walk/Grow.antt =====
-- The buffer of the directory listing grows (host/std_fs_walk/ref.c, `ensure_cap`).
use native.Mathlib.Nat.{pow-suc}
use fxlang.Prelude.{
  ℕ, zero, suc, ◌*◌, ◌%◌, ◌^◌, ◌≤◌, ◌<◌, ◌≡◌, refl, ap, ◌⊎◌, inl, inr, true, false, Option, some,
  arith, ltb, ◌==◌, if◌then◌else◌, dec_lt, Bool-cases,
}
use fxlang.Edge.Walk.{Buffer, Memory, double_until, ensure_cap}

Doubled : ℕ → ℕ → Option ℕ → Type 0
Doubled n need o = (r : ℕ) × (o ≡ some r) × (need ≤ r) × (n ≤ r) × ((r ≡ n) ⊎ (r < 2 * need))

mul-two-pow-suc : (n f : ℕ) → n * 2 * 2 ^ f ≡ n * 2 ^ suc f
mul-two-pow-suc n f = omega (arith, ap (λ (t : ℕ). n * t) (pow-suc 2 f))

-- `f` rounds reach `need`, and none of them wraps.
double_until-Doubled :
    (f n need : ℕ) → need ≤ 2 ^ 63 → need ≤ n * 2 ^ f → Doubled n need (double_until (suc f) n need)
unfolding double_until Doubled
double_until-Doubled zero n need small reach = (n, ground arith, omega arith, omega arith, inl refl)
double_until-Doubled (suc f) n need small reach = elim (dec_lt n need) [
  | no enough ↦ (n, ground arith, omega arith, omega arith, inl refl)
  | yes more ↦
      let whole : n * 2 % 2 ^ 64 ≡ n * 2 = omega arith in
      let reach' : need ≤ n * 2 % 2 ^ 64 * 2 ^ f =
        omega (arith, ap (λ (t : ℕ). t * 2 ^ f) whole, mul-two-pow-suc n f) in
      let (r, e, fits, larger, near) = double_until-Doubled f (n * 2 % 2 ^ 64) need small reach' in
      (r, ground (arith, e), fits, omega arith, inr (ground arith))
]

-- A request of memory that was refused, for `need` bytes: of 4096 bytes, or of less than twice as many.
abbrev pub RefusedFor : Memory → (need n : ℕ) → Type 0
RefusedFor m need n = (m.grants n ≡ false) × ((n ≤ 4096) ⊎ (n < 2 * need))

-- What a call of `ensure_cap` leaves: room, with the old bytes in place, or a refusal.
abbrev pub Ensured : Memory → ℕ → Buffer → Type 0
Ensured m need b =
    ((b' : Buffer) × (ensure_cap m need b ≡ some (true, b'))
      × (need ≤ b'.size)
      × ((i : ℕ) → (i < b.size) → b'.cell i ≡ b.cell i))
    ⊎ ((ensure_cap m need b ≡ some (false, b)) × (n : ℕ) × RefusedFor m need n)

pub ensure_cap-Ensured : (m : Memory) (need : ℕ) (b : Buffer) → need ≤ 2 ^ 63 → Ensured m need b
unfolding ensure_cap Doubled
ensure_cap-Ensured m need b small = elim (dec_lt b.size need) [
  | no fits ↦ inl (b, ground arith, omega arith, λ i below. refl)
  | yes more ↦
      let start : ℕ = if b.size == 0 then 4096 else b.size in
      let (r, e, fits, larger, near) = double_until-Doubled 63 start need small (ground arith) in
      elim (Bool-cases (m.grants r)) [
        | inl given ↦ inl (
          record { cell = λ i. if ltb i b.size then b.cell i else m.junk i; size = r },
          ground (arith, e, given),
          fits,
          λ i below. ground arith,
        )
        | inr refused ↦ inr (ground (arith, e, refused), r, (refused, ground arith))
      ]
]
