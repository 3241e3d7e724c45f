-- ===== src/Prelude/Memory.antt =====
-- Objects at addresses: a table from pointers to what they point at. NULL is 0.
use Prim.Native.Nat.{ℕ}
use mathlib.Core.Option.{Option, none, some}
use fxlang.Prelude.Tests.{◌==◌, if◌then◌else◌}

abbrev pub Ptr : Type 0
Ptr = ℕ

abbrev pub Table : Type 0 → Type 0
Table A = Ptr → Option A

abbrev pub map_option {ℓ κ} : {A : Type ℓ} {B : Type κ} → (A → B) → Option A → Option B
map_option f none = none
map_option f (some a) = some (f a)

abbrev pub update {ℓ} : {A : Type ℓ} → (ℕ → A) → ℕ → A → ℕ → A
update t p v q = if p == q then v else t q

-- A write through a pointer to an object; where there is none, nothing changes.
abbrev pub modify {ℓ} : {A : Type ℓ} → (ℕ → Option A) → ℕ → (A → A) → ℕ → Option A
modify t p f = update t p (map_option f (t p))
