-- ===== src/Cap/Invariant/Frames.antt =====
-- Operations that change no field of the invariant.
use fxlang.Prelude.{
  ℕ, ◌+◌, ◌-◌, ◌≡◌, refl, sym, subst, ◌⊎◌, inl, inr, true, ◌||◌, not, some, arith, ◌==◌, ltb,
  Bool-cases, Option-cases, Ptr, Table, update, pos, negsuc, ℤ,
}
use fxlang.Cap.{
  Cap, AllocCap, FuelCap, Guest, Runtime, is_live, put_guest, put_cap, live_guest, as_alloc,
  as_fuel,
}
use fxlang.Cap.Budget.{guest_bump_alloc, alloccap_alloc, fuelcap_burn, align_up}
use fxlang.Cap.Budget.Spending.{caps-bump}
use fxlang.Cap.Invariant.{live_of, owned_of, IsOwned, IsValid}
use fxlang.Cap.Invariant.Tree.{IsTree-congr}
use fxlang.Cap.Invariant.Steps.{IsSound, live_guest-some}

IsOwned-congr :
    (owner : Ptr → Ptr) (s t : Table Guest) (caps : Table Cap)
    → ((x : Ptr) → live_of (t x) ≡ live_of (s x))
    → ((x : Ptr) → owned_of (t x) ≡ owned_of (s x))
    → IsOwned owner s caps
    → IsOwned owner t caps
IsOwned-congr owner s t caps live' owned' o = record {
  null = o.null;
  held = λ x q e. ground (arith, live' x, owned' x, o.held x q);
  backed = λ q ctx budget e. ground (arith, owned' ctx, o.backed q ctx budget);
}

as_alloc-some : (c : Cap) (b : AllocCap) → as_alloc (some c) ≡ some b → c ≡ Cap.alloc b
as_alloc-some (Cap.fs _) b e = cc
as_alloc-some (Cap.out _) b e = cc
as_alloc-some (Cap.alloc _) b e = ground arith
as_alloc-some (Cap.fuel _) b e = cc
as_alloc-some (Cap.net _) b e = cc

-- A capability rewritten with the same life and the same `ctx`.
IsOwned-recap :
    (owner : Ptr → Ptr) (guests : Table Guest) (caps : Table Cap) (p : Ptr) (c c' : Cap)
    → caps p ≡ some c
    → is_live c' ≡ is_live c
    → ((a : AllocCap)
        → as_alloc (some c') ≡ some a
        → (b : AllocCap) × (as_alloc (some c) ≡ some b) × (b.ctx ≡ a.ctx) × (b.live ≡ a.live))
    → IsOwned owner guests caps
    → IsOwned owner guests (update caps p (some c'))
IsOwned-recap owner guests caps p c c' at_p live' backing o = record {
  null = ground (arith, o.null);
  held = λ x q e. ground (arith, o.held x q);
  backed = λ q ctx budget e. elim (Bool-cases (p == q)) [
    | inl h ↦
        let new : AllocCap = record { ctx = ctx; budget_remaining = budget; live = true } in
        let (b, e', same, alive) = backing new (ground arith) in
        ground (arith, o.backed q ctx b.budget_remaining, as_alloc-some c b e')
    | inr h ↦ ground (arith, o.backed q ctx budget)
  ];
}

reused :
    (depth : Ptr → ℕ) (owner : Ptr → Ptr) (rt : Runtime) (ctx : Ptr) (g : Guest) (k : ℕ)
    → rt.guests ctx ≡ some g
    → IsValid depth owner rt
    → IsValid depth owner (put_guest rt ctx (record g { arena_used = k }))
reused depth owner rt ctx g k at_ctx v =
    let after = put_guest rt ctx (record g { arena_used = k }) in
    record {
      tree =
          IsTree-congr depth rt.guests after.guests (λ x. ground arith) (λ x. ground arith)
            (λ x. ground arith) (ground (arith, v.tree.null)) v.tree;
      owning =
          IsOwned-congr owner rt.guests after.guests rt.caps (λ x. ground arith) (λ x. ground arith)
            v.owning;
    }

bump_cases :
    (rt : Runtime) (ctx : Ptr) (n : ℤ)
    → ((guest_bump_alloc rt ctx n).1 ≡ rt)
      ⊎ ((g : Guest) × (k : ℕ) × (rt.guests ctx ≡ some g)
          × ((guest_bump_alloc rt ctx n).1 ≡ put_guest rt ctx (record g { arena_used = k })))
unfolding guest_bump_alloc
bump_cases rt ctx (negsuc n) = inl refl
bump_cases rt ctx (pos n) = elim (Option-cases (live_guest (rt.guests ctx))) [
  | inl e ↦ inl (ground arith)
  | inr (g, e) ↦
      elim (Bool-cases (
        (g.arena == 0)
        || (n == 0)
        || ltb g.arena_size (align_up g.arena_used)
        || ltb (g.arena_size - align_up g.arena_used) n)) [
          | inl full ↦ inl (ground arith)
          | inr room ↦
              inr (
                g,
                align_up g.arena_used + n,
                (live_guest-some (rt.guests ctx) g e).0,
                ground arith,
              )
        ]
]

pub guest_bump_alloc-IsValid :
    (depth : Ptr → ℕ) (owner : Ptr → Ptr) (rt : Runtime) (ctx : Ptr) (n : ℤ)
    → IsValid depth owner rt
    → IsValid depth owner (guest_bump_alloc rt ctx n).1
guest_bump_alloc-IsValid depth owner rt ctx n v = elim (bump_cases rt ctx n) [
  | inl e ↦ subst (IsValid depth owner) (sym e) v
  | inr (g, k, at_ctx, e) ↦
      subst (IsValid depth owner) (sym e) (reused depth owner rt ctx g k at_ctx v)
]

pub alloccap_alloc-IsSound :
    (rt : Runtime) (h : Ptr) (n : ℤ) → IsSound rt → IsSound (alloccap_alloc rt h n).1
unfolding alloccap_alloc
alloccap_alloc-IsSound rt h (negsuc n) s = s
alloccap_alloc-IsSound rt h (pos n) (depth, owner, v) = elim (Option-cases (as_alloc (rt.caps h))) [
  | inl e ↦ subst IsSound (ground arith) (depth, owner, v)
  | inr (c, e) ↦
      elim (Bool-cases (
        not c.live
        || (n == 0)
        || ltb c.budget_remaining n
        || ((guest_bump_alloc rt c.ctx (pos n)).0 == 0))) [
          | inl full ↦ subst IsSound (ground arith) (depth, owner, v)
          | inr room ↦ subst IsSound (ground arith) (spent c e)
        ]
]
  where
    alloc_there :
        (c : AllocCap)
        → as_alloc (rt.caps h) ≡ some c
        → (guest_bump_alloc rt c.ctx (pos n)).1.caps h ≡ some (Cap.alloc c)
    alloc_there c e = rw (caps-bump rt c.ctx n) (ground arith)

    spent :
        (c : AllocCap)
        → as_alloc (rt.caps h) ≡ some c
        → IsSound (
            put_cap
              (guest_bump_alloc rt c.ctx (pos n)).1
              h
              (Cap.alloc (record c { budget_remaining = c.budget_remaining - n })))
    spent c e =
        let w = guest_bump_alloc-IsValid depth owner rt c.ctx (pos n) v in
        (
          depth,
          owner,
          record {
            tree = w.tree;
            owning =
                IsOwned-recap owner _ _ h (Cap.alloc c) _ (alloc_there c e) refl
                  (λ a k. (c, refl, ground arith, ground arith)) w.owning;
          },
        )

pub fuelcap_burn-IsSound :
    (rt : Runtime) (h : Ptr) (n : ℤ) → IsSound rt → IsSound (fuelcap_burn rt h n).1
unfolding fuelcap_burn
fuelcap_burn-IsSound rt h (negsuc n) s = s
fuelcap_burn-IsSound rt h (pos n) (depth, owner, v) = elim (Option-cases (as_fuel (rt.caps h))) [
  | inl e ↦ subst IsSound (ground arith) (depth, owner, v)
  | inr (c, e) ↦ elim (Bool-cases (not c.live || (n == 0) || ltb c.units_remaining n)) [
    | inl full ↦ subst IsSound (ground arith) (depth, owner, v)
    | inr room ↦ subst IsSound (ground arith) (burnt c e)
  ]
]
  where
    fuel_there : (c : FuelCap) → as_fuel (rt.caps h) ≡ some c → rt.caps h ≡ some (Cap.fuel c)
    fuel_there c e = ground arith

    burnt :
        (c : FuelCap)
        → as_fuel (rt.caps h) ≡ some c
        → IsSound (put_cap rt h (Cap.fuel (record c { units_remaining = c.units_remaining - n })))
    burnt c e = (
      depth,
      owner,
      record {
        tree = v.tree;
        owning =
            IsOwned-recap owner rt.guests rt.caps h (Cap.fuel c) _ (fuel_there c e) refl (λ a k. cc)
              v.owning;
      },
    )
