-- ===== src/Cap/End.antt =====
-- `fx_guest_end` (host/cap/fx_cap_runtime.c): it returns, it ends the session with all that is
-- nested under it, and nothing else.
mod Steps
pub mod Histories
use fxlang.Prelude.{
  ℕ, zero, suc, ◌+◌, ◌-◌, ◌*◌, ◌≤◌, ◌<◌, ◌≡◌, refl, sym, ap, subst, ◌∙◌, ◌≢◌, ◌⊎◌, inl, inr, Bool,
  true, false, Option, none, some, List, [], ◌∷◌, arith, ◌==◌, ==-ne, Bool-cases, Option-cases,
  length, has, Ptr, Table,
}
use fxlang.Cap.{Guest, Runtime}
use fxlang.Cap.Session.{guest_end, end_children, tear_down}
use fxlang.Cap.Invariant.{
  live_of, parent_of, children_of, owned_of, is_live_cap, IsTree, IsOwned, IsValid,
}
use fxlang.Cap.Invariant.Tree.{
  parent-ne_self, live-tear_down, parent-tear_down, owned-tear_down, tear_down-IsTree,
}
use fxlang.Cap.Invariant.Owned.{tear_down-IsOwned}
pub use Steps.{Bounded, fuel_at}
use Steps.{
  Left, Left-Bounded, has_child, fewer_children, parent_survives, Ends, Empties, Ends-suc,
  Empties-suc, Empties-nil,
}
use fxlang.Cap.Invariant.Under
use fxlang.Cap.Invariant.Under.{Under, here, up, Shrinks}

module _ (depth : Ptr → ℕ) (owner : Ptr → Ptr) where
  mutual
    guest_end-Ends :
        (f : ℕ) (deepest : ℕ) (rt : Runtime) (p : Ptr)
        → IsValid depth owner rt
        → Bounded depth owner deepest rt
        → live_of (rt.guests p) ≡ true
        → fuel_at depth owner deepest p ≤ f
        → Ends depth owner f rt p
    guest_end-Ends zero deepest rt p v b alive fuel = absurd (omega arith)
    guest_end-Ends (suc f) deepest rt p v b alive fuel = Ends-suc depth owner f rt p alive (
        end_children-Empties f deepest rt p (children_of (rt.guests p)) refl v b alive
          (omega (arith, v.tree.few p)))

    end_children-Empties :
        (f : ℕ) (deepest : ℕ) (rt : Runtime) (p : Ptr) (cs : List Ptr)
        → children_of (rt.guests p) ≡ cs
        → IsValid depth owner rt
        → Bounded depth owner deepest rt
        → live_of (rt.guests p) ≡ true
        → 10 * (deepest - depth p) + length cs + 1 ≤ f
        → Empties depth owner f rt p
    end_children-Empties zero deepest rt p cs e v b alive fuel = absurd (omega arith)
    end_children-Empties (suc f) deepest rt p [] e v b alive fuel =
        Empties-nil depth owner f rt p v alive e
    end_children-Empties (suc f) deepest rt p (c ∷ cs) e v b alive fuel =
        let child : has c (children_of (rt.guests p)) ≡ true = ground arith in
        let nz = has_child depth owner rt c p v child in
        let (live_c, under) = v.tree.child p c child in
        let deeper : depth c ≡ suc (depth p) = ground (arith, v.tree.up c) in
        let round = guest_end-Ends f deepest rt c v b live_c (omega (arith, b c live_c)) in
        let (rt', run, left, gone) = round in
        let shorter = fewer_children depth owner rt c p rt' v left child gone in
        Empties-suc depth owner f rt c p cs v e round (
          end_children-Empties f deepest rt' p (children_of (rt'.guests p)) refl left.valid
            (Left-Bounded depth owner deepest rt c rt' left b)
            (parent_survives depth owner rt c p rt' v left child alive) (ground (arith, shorter)))

-- On a valid runtime with a bound on the depth of its live sessions, `fx_guest_end` called for a
-- live session returns on the fuel that the bound asks for; the runtime that it leaves is valid
-- again, and the session is dead.
pub guest_end_returns :
    (depth : Ptr → ℕ) (owner : Ptr → Ptr) (f deepest : ℕ) (rt : Runtime) (p : Ptr)
    → IsValid depth owner rt
    → Bounded depth owner deepest rt
    → live_of (rt.guests p) ≡ true
    → fuel_at depth owner deepest p ≤ f
    → (rt' : Runtime) × (guest_end f rt p ≡ some rt')
      × IsValid depth owner rt'
      × (live_of (rt'.guests p) ≡ false)
guest_end_returns depth owner f deepest rt p v b alive fuel =
    let (rt', run, left, gone) = guest_end-Ends depth owner f deepest rt p v b alive fuel in
    (rt', run, left.valid, gone)

module _ (depth : Ptr → ℕ) (owner : Ptr → Ptr) (f deepest : ℕ) (rt : Runtime) (p : Ptr)
    (v : IsValid depth owner rt) (b : Bounded depth owner deepest rt)
    (alive : live_of (rt.guests p) ≡ true) (fuel : fuel_at depth owner deepest p ≤ f)
    (rt' : Runtime) (run : guest_end f rt p ≡ some rt') (x : Ptr)
    (was : live_of (rt.guests x) ≡ true) where
  guest_end_leaves : Left depth owner rt p rt' × (live_of (rt'.guests p) ≡ false)
  guest_end_leaves =
      let (rt'', run', left, gone) = guest_end-Ends depth owner f deepest rt p v b alive fuel in
      let same : rt'' ≡ rt' = ground (arith, run, run') in
      (subst (Left depth owner rt p) same left, subst (λ r. live_of (r.guests p) ≡ false) same gone)

  -- On a valid runtime with a bound on the depth of its live sessions, and with enough fuel,
  -- ending a live session ends exactly the sessions nested under it, itself included: of the live
  -- ones each is dead afterwards if the parent pointers lead from it to the session, and else
  -- lives on.
  pub guest_end-Under :
      ((live_of (rt'.guests x) ≡ false) × Under rt.guests p x)
      ⊎ ((live_of (rt'.guests x) ≡ true) × ¬ Under rt.guests p x)
  guest_end-Under =
      let (left, gone) = guest_end_leaves in
      let dies = λ (u : Under rt.guests p x).
        Under.Under-dead depth rt.guests rt'.guests left.valid.tree left.shrinks gone u in
      elim (left.spared x was) [
        | inr u ↦ inl (dies u, u)
        | inl h ↦ inr (h, λ u. ground (arith, dies u))
      ]

  -- On a valid runtime with a bound on the depth of its live sessions, and with enough fuel,
  -- `fx_guest_end` for a live session revokes, of the capabilities of the live sessions, exactly
  -- those of the sessions that it ends.
  pub guest_end_revokes :
      (q : Ptr)
      → has q (owned_of (rt.guests x)) ≡ true
      → ((is_live_cap (rt'.caps q) ≡ false) × Under rt.guests p x)
        ⊎ ((is_live_cap (rt'.caps q) ≡ true) × ¬ Under rt.guests p x)
  guest_end_revokes q mine =
      let (left, gone) = guest_end_leaves in
      let follows : is_live_cap (rt'.caps q) ≡ live_of (rt'.guests x) =
        (left.valid.owning.held x q (rw (left.kept x) mine)).2 in
      elim guest_end-Under [ inl h ↦ inl (follows ∙ h.0, h.1) | inr h ↦ inr (follows ∙ h.0, h.1) ]

-- On a valid runtime with a bound on the depth of its live sessions, and with enough fuel,
-- `fx_guest_end` for a live session ends exactly the sessions nested under it, itself included, and
-- revokes exactly their capabilities: each live session, and each capability of a live session, is
-- dead afterwards if the parent pointers lead from the session to the one that is ended, and else
-- lives on.
pub guest_end_exact :
    (depth : Ptr → ℕ) (owner : Ptr → Ptr) (f deepest : ℕ) (rt : Runtime) (p : Ptr)
    → IsValid depth owner rt
    → Bounded depth owner deepest rt
    → live_of (rt.guests p) ≡ true
    → fuel_at depth owner deepest p ≤ f
    → (rt' : Runtime) → guest_end f rt p ≡ some rt'
    → (x y q : Ptr) → live_of (rt.guests x) ≡ true
    → live_of (rt.guests y) ≡ true
    → has q (owned_of (rt.guests y)) ≡ true
    → (((live_of (rt'.guests x) ≡ false) × Under rt.guests p x)
        ⊎ ((live_of (rt'.guests x) ≡ true) × ¬ Under rt.guests p x))
      × (((is_live_cap (rt'.caps q) ≡ false) × Under rt.guests p y)
          ⊎ ((is_live_cap (rt'.caps q) ≡ true) × ¬ Under rt.guests p y))
guest_end_exact depth owner f deepest rt p v b alive fuel rt' run x y q was_x was_y mine = (
  guest_end-Under depth owner f deepest rt p v b alive fuel rt' run x was_x,
  guest_end_revokes depth owner f deepest rt p v b alive fuel rt' run y was_y q mine,
)
