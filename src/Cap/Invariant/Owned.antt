-- ===== src/Cap/Invariant/Owned.antt =====
-- Each operation of the cap runtime keeps every capability with the session that minted it.
use fxlang.Prelude.{
  ℕ, ◌≡◌, refl, sym, ◌∙◌, ◌≢◌, false, Option, none, some, List, [], ◌∷◌, ◌++◌, arith, has, Ptr,
  Table, if◌then◌else◌, modify, map_option,
}
use fxlang.Cap.{Cap, Guest, Runtime, owned}
use fxlang.Cap.Session.{revoke, revoke_all, revoke_session, tear_down}
use fxlang.Cap.Invariant.{is_live_cap, IsOwned, IsTree}
use fxlang.Cap.Invariant.Tree.{parent-ne_self, live-tear_down, owned-tear_down, caps-tear_down}

revoke_twice : (c : Option Cap) → map_option revoke (map_option revoke c) ≡ map_option revoke c
revoke_twice none = refl
revoke_twice (some (Cap.fs c)) = refl
revoke_twice (some (Cap.out c)) = refl
revoke_twice (some (Cap.alloc c)) = refl
revoke_twice (some (Cap.fuel c)) = refl
revoke_twice (some (Cap.net c)) = refl

pub is_live-revoke : (c : Option Cap) → is_live_cap (map_option revoke c) ≡ false
is_live-revoke none = refl
is_live-revoke (some (Cap.fs c)) = refl
is_live-revoke (some (Cap.out c)) = refl
is_live-revoke (some (Cap.alloc c)) = refl
is_live-revoke (some (Cap.fuel c)) = refl
is_live-revoke (some (Cap.net c)) = refl

-- The loops revoke the capabilities of the list, and touch no other.
pub revoke_all_lem :
    (ps : List Ptr) (caps : Table Cap) (q : Ptr)
    → revoke_all ps caps q ≡ (if has q ps then map_option revoke (caps q) else caps q)
unfolding revoke_all
revoke_all_lem [] caps q = refl
revoke_all_lem (p ∷ ps) caps q =
    ground (arith, revoke_all_lem ps (modify caps p revoke) q, revoke_twice (caps q))

revoke_all-append :
    (xs ys : List Ptr) (caps : Table Cap)
    → revoke_all (xs ++ ys) caps ≡ revoke_all ys (revoke_all xs caps)
unfolding revoke_all
revoke_all-append [] ys caps = refl
revoke_all-append (x ∷ xs) ys caps = revoke_all-append xs ys (modify caps x revoke)

revoke_session-eq :
    (g : Guest) (caps : Table Cap) → revoke_session g caps ≡ revoke_all (owned g) caps
unfolding revoke_session
revoke_session-eq g caps = sym (
    revoke_all-append g.fs_caps _ caps
    ∙ revoke_all-append g.out_caps _ _
    ∙ revoke_all-append g.alloc_caps _ _
    ∙ revoke_all-append g.fuel_caps _ _)

-- `fx_guest_end` revokes the capabilities of the session, and no other.
pub revoke_session_lem :
    (g : Guest) (caps : Table Cap) (q : Ptr)
    → revoke_session g caps q ≡ (if has q (owned g) then map_option revoke (caps q) else caps q)
revoke_session_lem g caps q = rw (revoke_session-eq g caps) (revoke_all_lem (owned g) caps q)

module _ (depth : Ptr → ℕ) (owner : Ptr → Ptr) (rt : Runtime) (p : Ptr) (g : Guest)
    (at_p : rt.guests p ≡ some g) (t : IsTree depth rt.guests)
    (o : IsOwned owner rt.guests rt.caps) where
  abbrev ne : g.parent ≢ p
  ne = parent-ne_self depth rt p g at_p t

  caps-tear_down_lem :
      (q : Ptr)
      → (tear_down rt p).caps q
        ≡ (if has q (owned g) then map_option revoke (rt.caps q) else rt.caps q)
  caps-tear_down_lem q = rw (caps-tear_down rt p g at_p ne) (revoke_session_lem g rt.caps q)

  pub tear_down-IsOwned : IsOwned owner (tear_down rt p).guests (tear_down rt p).caps
  tear_down-IsOwned = record {
    null = ground (arith, caps-tear_down_lem 0, o.null);
    held = λ x q e. ground (
      arith,
      caps-tear_down_lem q,
      live-tear_down rt p g at_p ne x,
      owned-tear_down rt p g at_p ne x,
      o.held x q,
      o.held p q,
      is_live-revoke (rt.caps q),
    );
    backed = λ q ctx budget e. ground (
      arith,
      caps-tear_down_lem q,
      owned-tear_down rt p g at_p ne ctx,
      is_live-revoke (rt.caps q),
      o.backed q ctx budget,
    );
  }
