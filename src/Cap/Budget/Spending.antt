-- ===== src/Cap/Budget/Spending.antt =====
-- The budgets of AllocCap and FuelCap over sequences of calls.
use fxlang.Prelude.{
  ℕ, ◌+◌, ◌≡◌, Option, some, List, [], ◌∷◌, arith, ◌==◌, if◌then◌else◌, Ptr, ℤ, pos, negsuc,
  pos_part,
}
use fxlang.Cap.{Cap, Runtime}
use fxlang.Cap.Budget.{guest_bump_alloc, alloccap_alloc, fuelcap_burn}

abbrev pub budget_of : Option Cap → ℕ
budget_of (some (Cap.alloc c)) = c.budget_remaining
budget_of _ = 0

abbrev pub units_of : Option Cap → ℕ
units_of (some (Cap.fuel c)) = c.units_remaining
units_of _ = 0

-- The bytes granted by a sequence of calls of `fx_alloccap_alloc`, and the final runtime.
unfoldable pub spend : Runtime → Ptr → List ℤ → ℕ × Runtime
spend rt cap [] = (0, rt)
spend rt cap (z ∷ zs) =
    let (p, rt') = alloccap_alloc rt cap z in
    let (total, rt'') = spend rt' cap zs in ((if p == 0 then 0 else pos_part z) + total, rt'')

-- The units burnt by a sequence of calls of `fx_fuelcap_burn`.
unfoldable pub burn : Runtime → Ptr → List ℤ → ℕ × Runtime
burn rt cap [] = (0, rt)
burn rt cap (z ∷ zs) =
    let (ok, rt') = fuelcap_burn rt cap z in
    let (total, rt'') = burn rt' cap zs in ((if ok then pos_part z else 0) + total, rt'')

pub caps-bump :
    (rt : Runtime) (ctx : Ptr) (n : ℕ) → (guest_bump_alloc rt ctx (pos n)).1.caps ≡ rt.caps
unfolding guest_bump_alloc
caps-bump rt ctx n = ground arith

alloc_conserves :
    (rt : Runtime) (cap : Ptr) (z : ℤ)
    → let (p, rt') = alloccap_alloc rt cap z in
      (if p == 0 then 0 else pos_part z) + budget_of (rt'.caps cap) ≡ budget_of (rt.caps cap)
unfolding alloccap_alloc
alloc_conserves rt cap (negsuc n) = omega arith
alloc_conserves rt cap (pos n) = ground arith

burn_conserves :
    (rt : Runtime) (cap : Ptr) (z : ℤ)
    → let (ok, rt') = fuelcap_burn rt cap z in
      (if ok then pos_part z else 0) + units_of (rt'.caps cap) ≡ units_of (rt.caps cap)
unfolding fuelcap_burn
burn_conserves rt cap (negsuc n) = omega arith
burn_conserves rt cap (pos n) = ground arith

-- Over any sequence of requests to an AllocCap, negative ones too, the bytes granted and the budget
-- that is left make up the budget at the start.
pub spend_conserves :
    (zs : List ℤ) (rt : Runtime) (cap : Ptr)
    → (spend rt cap zs).0 + budget_of ((spend rt cap zs).1.caps cap) ≡ budget_of (rt.caps cap)
unfolding spend
spend_conserves [] rt cap = omega arith
spend_conserves (z ∷ zs) rt cap =
    let rt' = (alloccap_alloc rt cap z).1 in
    omega (arith, alloc_conserves rt cap z, spend_conserves zs rt' cap)

-- Over any sequence of requests to a FuelCap, the units burnt and the units that are left make up
-- the units at the start.
pub burn_conserves_all :
    (zs : List ℤ) (rt : Runtime) (cap : Ptr)
    → (burn rt cap zs).0 + units_of ((burn rt cap zs).1.caps cap) ≡ units_of (rt.caps cap)
unfolding burn
burn_conserves_all [] rt cap = omega arith
burn_conserves_all (z ∷ zs) rt cap =
    let rt' = (fuelcap_burn rt cap z).1 in
    omega (arith, burn_conserves rt cap z, burn_conserves_all zs rt' cap)
