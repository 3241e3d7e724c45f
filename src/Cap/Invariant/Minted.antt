-- ===== src/Cap/Invariant/Minted.antt =====
-- A capability minted in a session keeps the runtime valid.
use fxlang.Prelude.{
  ℕ, ◌≡◌, ◌∙◌, ◌≢◌, inl, inr, true, ◌||◌, none, some, arith, ◌==◌, Bool-cases, has, Ptr, update,
}
use fxlang.Cap.{Cap, AllocCap, Guest, Runtime, owned, is_live, put_guest, put_cap, as_alloc}
use fxlang.Cap.Invariant.{IsTree, IsOwned, IsValid}
use fxlang.Cap.Invariant.Tree.{IsTree-congr}

-- A session `g` becomes `g'` by taking the new capability `c` at the unused address `fresh`.
module _ (depth : Ptr → ℕ) (owner : Ptr → Ptr) (rt : Runtime) (ctx fresh : Ptr) (g g' : Guest)
    (c : Cap) (v : IsValid depth owner rt) (at_ctx : rt.guests ctx ≡ some g) (nz : fresh ≢ 0)
    (unused : rt.caps fresh ≡ none) where
  abbrev minted : Runtime
  minted = put_guest (put_cap rt fresh c) ctx g'

  pub IsTree-minted :
      g'.live ≡ g.live
      → g'.parent ≡ g.parent
      → g'.children ≡ g.children
      → IsTree depth minted.guests
  IsTree-minted live parent children =
      IsTree-congr depth rt.guests minted.guests (λ x. ground arith) (λ x. ground arith)
        (λ x. ground arith) (ground (arith, v.tree.null)) v.tree

  pub IsOwned-minted :
      g.live ≡ true
      → g'.live ≡ true
      → is_live c ≡ true
      → ((q : Ptr) → has q (owned g') ≡ (has q (owned g) || (fresh == q)))
      → ((a : AllocCap) → as_alloc (some c) ≡ some a → a.ctx ≡ ctx)
      → IsOwned (update owner fresh ctx) minted.guests minted.caps
  IsOwned-minted live live' live_c adds backing = record {
    null = ground (arith, v.owning.null);
    held = λ x q e. ground (arith, adds q, v.owning.held x q);
    backed = λ q a budget e. elim (Bool-cases (fresh == q)) [
      | inl h ↦
          let same : a ≡ ctx =
            backing (record { ctx = a; budget_remaining = budget; live = true }) (ground arith) in
          ground (arith, adds q)
      | inr h ↦ ground (arith, adds q, v.owning.backed q a budget)
    ];
  }

  pub IsValid-minted :
      g.live ≡ true
      → g'.live ≡ g.live
      → g'.parent ≡ g.parent
      → g'.children ≡ g.children
      → is_live c ≡ true
      → ((q : Ptr) → has q (owned g') ≡ (has q (owned g) || (fresh == q)))
      → ((a : AllocCap) → as_alloc (some c) ≡ some a → a.ctx ≡ ctx)
      → IsValid depth (update owner fresh ctx) minted
  IsValid-minted live live' parent children live_c adds backing = record {
    tree = IsTree-minted live' parent children;
    owning = IsOwned-minted live (live' ∙ live) live_c adds backing;
  }
