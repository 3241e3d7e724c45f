-- ===== src/Cap/Invariant/Steps.antt =====
-- Every operation of the cap runtime keeps it valid, and so do histories of them.
use fxlang.Prelude.{
  ℕ, ◌≡◌, refl, sym, ap, subst, ◌≢◌, inl, inr, Bool, true, ◌||◌, Option, none, some, List, [], ◌∷◌,
  ◌++◌, arith, ◌==◌, leb, Bool-cases, Option-cases, length, has, Ptr, update, has-append, Text, pos,
  negsuc, ℤ,
}
use fxlang.Cap.Path.{root_size, mint_root}
use fxlang.Cap.{
  Cap, AllocCap, Guest, Runtime, owned, is_live, put_guest, put_cap, live_guest, as_alloc, max_caps,
}
use fxlang.Cap.Mint.{
  mint_root_or_default, guest_mint_fscap, guest_mint_outcap, guest_mint_alloccap,
  guest_mint_fuelcap, guest_mint_netcap, refuses_net,
}
use fxlang.Cap.Invariant.{IsValid}
use fxlang.Cap.Invariant.Minted.{IsValid-minted}

-- A state with some depth and some owner at which it is valid.
abbrev pub IsSound : Runtime → Type 0
IsSound rt = (depth : Ptr → ℕ) × (owner : Ptr → Ptr) × IsValid depth owner rt

pub live_guest-some :
    (o : Option Guest) (g : Guest) → live_guest o ≡ some g → (o ≡ some g) × (g.live ≡ true)
live_guest-some none g e = cc
live_guest-some (some h) g e = ground arith

-- The result of a mint: refused, or a new live capability at `fresh`, entered in the session.
pub data Mints (rt : Runtime) (ctx fresh : Ptr) (r : Ptr × Runtime) : Type 0 where
  refused : r ≡ (0, rt) → Mints rt ctx fresh r
  minted :
      (g g' : Guest) (c : Cap)
      → live_guest (rt.guests ctx) ≡ some g
      → fresh ≢ 0
      → r ≡ (fresh, put_guest (put_cap rt fresh c) ctx g')
      → (g'.live ≡ g.live) × (g'.parent ≡ g.parent) × (g'.children ≡ g.children)
      → is_live c ≡ true
      → ((q : Ptr) → has q (owned g') ≡ (has q (owned g) || (fresh == q)))
      → ((a : AllocCap) → as_alloc (some c) ≡ some a → a.ctx ≡ ctx)
      → Mints rt ctx fresh r

pub Mints-IsSound :
    (rt : Runtime) (ctx fresh : Ptr) (r : Ptr × Runtime)
    → rt.caps fresh ≡ none
    → IsSound rt
    → Mints rt ctx fresh r
    → IsSound r.1
Mints-IsSound rt ctx fresh r unused s (refused e) = subst IsSound (ap (λ x. x.1) (sym e)) s
Mints-IsSound rt ctx fresh r unused (depth, owner, v)
      (minted g g' c e nz eq (live, parent, children) live_c adds backing) =
    let (at_ctx, alive) = live_guest-some (rt.guests ctx) g e in
    subst IsSound (ap (λ x. x.1) (sym eq)) (
      depth,
      update owner fresh ctx,
      IsValid-minted depth owner rt ctx fresh g g' c v at_ctx nz unused alive live parent children
          live_c adds backing,
    )

-- One more capability at the end of one of a session's lists.
has-grow :
    (q p : Ptr) (xs ys : List Ptr) → has q ((xs ++ (p ∷ [])) ++ ys) ≡ (has q (xs ++ ys) || (p == q))
has-grow q p xs ys =
    ground (arith, has-append q (xs ++ (p ∷ [])) ys, has-append q xs (p ∷ []), has-append q xs ys)

has-append_last : (q p : Ptr) (xs : List Ptr) → has q (xs ++ (p ∷ [])) ≡ (has q xs || (p == q))
has-append_last q p xs = ground (arith, has-append q xs (p ∷ []))

has-behind :
    (q : Ptr) (xs ys zs : List Ptr) (b : Bool)
    → has q zs ≡ (has q ys || b)
    → has q (xs ++ zs) ≡ (has q (xs ++ ys) || b)
has-behind q xs ys zs b h = ground (arith, has-append q xs zs, has-append q xs ys)

pub guest_mint_fscap-Mints :
    (rt : Runtime) (ctx fresh : Ptr) (root : Option Text)
    → Mints rt ctx fresh (guest_mint_fscap rt ctx fresh root)
unfolding guest_mint_fscap
guest_mint_fscap-Mints rt ctx fresh root = elim (Option-cases (live_guest (rt.guests ctx))) [
  | inl e ↦ refused (ground arith)
  | inr (g, e) ↦ elim (Bool-cases (leb max_caps (length g.fs_caps))) [
    | inl full ↦ refused (ground arith)
    | inr room ↦ elim (Option-cases (mint_root_or_default g root)) [
      | inl e1 ↦ refused (ground arith)
      | inr (u, e1) ↦ elim (Option-cases (mint_root root_size (some u))) [
        | inl e2 ↦ refused (ground arith)
        | inr (r, e2) ↦ elim (Bool-cases (fresh == 0)) [
          | inl e3 ↦ refused (ground arith)
          | inr e3 ↦
              minted g (record g { fs_caps = g.fs_caps ++ (fresh ∷ []) })
                (Cap.fs (record { root = r; live = true })) e (ground arith) (ground arith)
                (refl, refl, refl) refl (λ q. has-grow q fresh g.fs_caps _) (λ a h. cc)
        ]
      ]
    ]
  ]
]

pub guest_mint_outcap-Mints :
    (rt : Runtime) (ctx fresh : Ptr) (root : Option Text)
    → Mints rt ctx fresh (guest_mint_outcap rt ctx fresh root)
unfolding guest_mint_outcap
guest_mint_outcap-Mints rt ctx fresh root = elim (Option-cases (live_guest (rt.guests ctx))) [
  | inl e ↦ refused (ground arith)
  | inr (g, e) ↦ elim (Bool-cases (leb max_caps (length g.out_caps))) [
    | inl full ↦ refused (ground arith)
    | inr room ↦ elim (Option-cases (mint_root_or_default g root)) [
      | inl e1 ↦ refused (ground arith)
      | inr (u, e1) ↦ elim (Option-cases (mint_root root_size (some u))) [
        | inl e2 ↦ refused (ground arith)
        | inr (r, e2) ↦ elim (Bool-cases (fresh == 0)) [
          | inl e3 ↦ refused (ground arith)
          | inr e3 ↦
              minted g (record g { out_caps = g.out_caps ++ (fresh ∷ []) })
                (Cap.out (record { root = r; live = true })) e (ground arith) (ground arith)
                (refl, refl, refl) refl
                (λ q. has-behind q g.fs_caps _ _ (fresh == q) (has-grow q fresh g.out_caps _))
                (λ a h. cc)
        ]
      ]
    ]
  ]
]

pub guest_mint_alloccap-Mints :
    (rt : Runtime) (ctx fresh : Ptr) (budget : ℤ)
    → Mints rt ctx fresh (guest_mint_alloccap rt ctx fresh budget)
unfolding guest_mint_alloccap
guest_mint_alloccap-Mints rt ctx fresh (negsuc n) = refused refl
guest_mint_alloccap-Mints rt ctx fresh (pos n) = elim (Option-cases (live_guest (rt.guests ctx))) [
  | inl e ↦ refused (ground arith)
  | inr (g, e) ↦
      elim (Bool-cases ((n == 0) || leb max_caps (length g.alloc_caps) || (fresh == 0))) [
        | inl no_room ↦ refused (ground arith)
        | inr room ↦
            minted g (record g { alloc_caps = g.alloc_caps ++ (fresh ∷ []) })
              (Cap.alloc (record { ctx = ctx; budget_remaining = n; live = true })) e (ground arith)
              (ground arith) (refl, refl, refl) refl
              (λ q.
                has-behind q g.fs_caps _ _ (fresh == q)
                  (has-behind q g.out_caps _ _ (fresh == q) (has-grow q fresh g.alloc_caps _)))
              (λ a h. ground arith)
      ]
]

pub guest_mint_fuelcap-Mints :
    (rt : Runtime) (ctx fresh : Ptr) (units : ℤ)
    → Mints rt ctx fresh (guest_mint_fuelcap rt ctx fresh units)
unfolding guest_mint_fuelcap
guest_mint_fuelcap-Mints rt ctx fresh (negsuc n) = refused refl
guest_mint_fuelcap-Mints rt ctx fresh (pos n) = elim (Option-cases (live_guest (rt.guests ctx))) [
  | inl e ↦ refused (ground arith)
  | inr (g, e) ↦ elim (Bool-cases ((n == 0) || leb max_caps (length g.fuel_caps) || (fresh == 0))) [
    | inl no_room ↦ refused (ground arith)
    | inr room ↦
        minted g (record g { fuel_caps = g.fuel_caps ++ (fresh ∷ []) })
          (Cap.fuel (record { ctx = ctx; units_remaining = n; live = true })) e (ground arith)
          (ground arith) (refl, refl, refl) refl
          (λ q. has-behind q g.fs_caps _ _ (fresh == q) (
            has-behind q g.out_caps _ _ (fresh == q)
              (has-behind q g.alloc_caps _ _ (fresh == q) (has-grow q fresh g.fuel_caps _))))
          (λ a h. cc)
  ]
]

pub guest_mint_netcap-Mints :
    (rt : Runtime) (ctx fresh : Ptr) (host : Option Text) (lo hi : ℤ)
    → Mints rt ctx fresh (guest_mint_netcap rt ctx fresh host lo hi)
unfolding guest_mint_netcap
guest_mint_netcap-Mints rt ctx fresh none lo hi = refused refl
guest_mint_netcap-Mints rt ctx fresh (some host) lo hi =
    elim (Option-cases (live_guest (rt.guests ctx))) [
      | inl e ↦ refused (ground arith)
      | inr (g, e) ↦ elim (Bool-cases (refuses_net g fresh host lo hi)) [
        | inl no_room ↦ refused (ground arith)
        | inr room ↦
            minted g (record g { net_caps = g.net_caps ++ (fresh ∷ []) })
              (Cap.net (record { allow_host = host; port_min = lo; port_max = hi; live = true })) e
              (ground arith) (ground arith) (refl, refl, refl) refl
              (λ q. has-behind q g.fs_caps _ _ (fresh == q) (
                has-behind q g.out_caps _ _ (fresh == q) (
                  has-behind q g.alloc_caps _ _ (fresh == q) (
                    has-behind q g.fuel_caps _ _ (fresh == q)
                      (has-append_last q fresh g.net_caps)))))
              (λ a h. cc)
      ]
    ]
