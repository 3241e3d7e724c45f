-- ===== src/Cap/Invariant/Tree.antt =====
-- Each operation of the cap runtime keeps the sessions a forest.
use fxlang.Prelude.{
  ℕ, suc, ◌<◌, ◌≡◌, refl, ap, ◌≢◌, inl, inr, true, false, ◌||◌, none, some, List, [], ◌∷◌, ◌++◌,
  arith, ◌==◌, Bool-cases, length, has, IsDistinct, Ptr, if◌then◌else◌, update, has-append,
  length-append, Table,
}
use fxlang.Cap.{Guest, Runtime}
use fxlang.Cap.Session.{unlink_from_parent, revoke_session, tear_down, tombstone, remove_child}
use fxlang.Cap.Invariant.{live_of, parent_of, children_of, owned_of, IsTree}
use fxlang.Cap.Invariant.Children.{
  has-remove_child, remove_child-nil, length-remove_child, IsDistinct-remove_child,
}

-- The fields after `tear_down`, for a session that is not its own parent.
module _ (rt : Runtime) (p : Ptr) (g : Guest) (at_p : rt.guests p ≡ some g)
    (up : g.parent ≢ p) where
  unlink_self : unlink_from_parent rt.guests p p ≡ some (record g { parent = 0 })
  unfolding unlink_from_parent
  unlink_self = ground arith

  pub live-tear_down :
      (x : Ptr)
      → live_of ((tear_down rt p).guests x) ≡ (if p == x then false else live_of (rt.guests x))
  unfolding tear_down unlink_from_parent
  live-tear_down x = ground (arith, unlink_self)

  pub parent-tear_down :
      (x : Ptr)
      → parent_of ((tear_down rt p).guests x) ≡ (if p == x then 0 else parent_of (rt.guests x))
  unfolding tear_down unlink_from_parent
  parent-tear_down x = ground (arith, unlink_self)

  pub owned-tear_down : (x : Ptr) → owned_of ((tear_down rt p).guests x) ≡ owned_of (rt.guests x)
  unfolding tear_down unlink_from_parent
  owned-tear_down x = ground (arith, unlink_self)

  pub children-tear_down :
      (x : Ptr)
      → rt.guests 0 ≡ none
      → children_of ((tear_down rt p).guests x) ≡ (
          if g.parent == x
          then remove_child p (children_of (rt.guests x))
          else children_of (rt.guests x))
  unfolding tear_down unlink_from_parent
  children-tear_down x null = ground (arith, unlink_self)

  -- What is left at the address itself.
  pub guest-tear_down : (tear_down rt p).guests p ≡ some (tombstone (record g { parent = 0 }))
  unfolding tear_down
  guest-tear_down = ground (arith, unlink_self)

  pub caps-tear_down : (tear_down rt p).caps ≡ revoke_session g rt.caps
  unfolding tear_down revoke_session
  caps-tear_down = ground (arith, unlink_self)

  pub null-tear_down : rt.guests 0 ≡ none → (tear_down rt p).guests 0 ≡ none
  unfolding tear_down unlink_from_parent
  null-tear_down null = ground arith

module _ (depth : Ptr → ℕ) (rt : Runtime) (p : Ptr) (g : Guest) (at_p : rt.guests p ≡ some g)
    (t : IsTree depth rt.guests) where
  pub parent-ne_self : g.parent ≢ p
  parent-ne_self e = ground (arith, t.null, t.up p)

  -- Tearing down a session without children keeps the forest.
  pub tear_down-IsTree : g.children ≡ [] → IsTree depth (tear_down rt p).guests
  tear_down-IsTree no_children =
      let ne = parent-ne_self in
      let live' = live-tear_down rt p g at_p ne in
      let parent' = parent-tear_down rt p g at_p ne in
      let children' = λ (x : Ptr). children-tear_down rt p g at_p ne x t.null in
      record {
        null = null-tear_down rt p g at_p ne t.null;
        child = λ x c h.
            let r = has-remove_child p c (children_of (rt.guests x)) (t.distinct x) in
            ground (arith, live' c, parent' c, children' x, r, t.child x c);
        up = λ x h.
            let y = parent_of (rt.guests x) in
            let r = has-remove_child p x (children_of (rt.guests y)) (t.distinct y) in
            ground (arith, live' y, parent' x, children' y, r, t.up x);
        distinct = λ x.
            let r = IsDistinct-remove_child p (children_of (rt.guests x)) (t.distinct x) in
            elim (Bool-cases (g.parent == x)) [
              | inl e ↦ rw (children' x, e) r
              | inr e ↦ rw (children' x, e) (t.distinct x)
            ];
        few = λ x.
            let r = length-remove_child p (children_of (rt.guests x)) in
            ground (arith, children' x, r, t.few x);
        dead = λ x h. ground (arith, live' x, parent' x, children' x, remove_child-nil p, t.dead x);
      }

-- The fields that the forest is made of decide it.
pub IsTree-congr :
    (depth : Ptr → ℕ) (s t : Table Guest)
    → ((x : Ptr) → live_of (t x) ≡ live_of (s x))
    → ((x : Ptr) → parent_of (t x) ≡ parent_of (s x))
    → ((x : Ptr) → children_of (t x) ≡ children_of (s x))
    → t 0 ≡ none
    → IsTree depth s
    → IsTree depth t
IsTree-congr depth s t live' parent' children' null h = record {
  null = null;
  child = λ x c e. ground (arith, live' c, parent' c, children' x, h.child x c);
  up = λ x e. let y = parent_of (s x) in ground (arith, live' y, parent' x, children' y, h.up x);
  distinct = λ x. rw (children' x) (h.distinct x);
  few = λ x. rw (children' x) (h.few x);
  dead = λ x e. ground (arith, live' x, parent' x, children' x, h.dead x);
}

-- A session without parent at an unused address.
pub IsTree-root :
    (depth : Ptr → ℕ) (s : Table Guest) (p : Ptr) (g : Guest)
    → p ≢ 0
    → s p ≡ none
    → g.live ≡ true
    → g.parent ≡ 0
    → g.children ≡ []
    → IsTree depth s
    → IsTree depth (update s p (some g))
IsTree-root depth s p g nz unused alive top no_children t = record {
  null = ground (arith, t.null);
  child = λ x c e. ground (arith, t.child x c);
  up = λ x e. ground (arith, t.up x);
  distinct = λ x. elim (Bool-cases (p == x)) [
    | inl e ↦ rw (e, no_children) tt
    | inr e ↦ rw e (t.distinct x)
  ];
  few = λ x. ground (arith, t.few x);
  dead = λ x e. ground (arith, t.dead x);
}

IsDistinct-append :
    (p : Ptr) (xs : List Ptr) → IsDistinct xs → has p xs ≡ false → IsDistinct (xs ++ p ∷ [])
IsDistinct-append p [] d h = (refl, tt)
IsDistinct-append p (x ∷ xs) d h =
    (ground (arith, has-append x xs (p ∷ [])), IsDistinct-append p xs d.1 (ground arith))

-- A session under a live one.
module _ (depth : Ptr → ℕ) (s : Table Guest) (p q : Ptr) (g h : Guest) (nz : p ≢ 0)
    (unused : s p ≡ none) (at_q : s q ≡ some h) (t : IsTree depth s) where
  abbrev nested : Table Guest
  nested = update (update s p (some g)) q (some (record h { children = h.children ++ (p ∷ []) }))

  new_child : has p (children_of (s q)) ≡ false
  new_child = elim (Bool-cases (has p (children_of (s q)))) [
    | inl e ↦ ground (arith, t.child q p e)
    | inr e ↦ e
  ]

  q-ne-null : q ≢ 0
  q-ne-null e = ground (arith, t.null, ap s e)

  live-nested : (x : Ptr) → g.live ≡ true → live_of (nested x) ≡ ((p == x) || live_of (s x))
  live-nested x e = ground arith

  parent-nested : (x : Ptr) → parent_of (nested x) ≡ (if p == x then g.parent else parent_of (s x))
  parent-nested x = ground arith

  children-nested :
      (x : Ptr)
      → g.children ≡ []
      → children_of (nested x)
        ≡ (if q == x then children_of (s x) ++ (p ∷ []) else children_of (s x))
  children-nested x e = ground arith

  pub IsTree-nested :
      g.live ≡ true
      → g.parent ≡ q
      → g.children ≡ []
      → h.live ≡ true
      → length h.children < 8
      → IsTree (update depth p (suc (depth q))) nested
  IsTree-nested alive under no_children parent_alive room = record {
    null = let nz' = q-ne-null in ground (arith, t.null);
    child = λ x c e. ground (
      arith,
      live-nested c alive,
      parent-nested c,
      children-nested x no_children,
      has-append c (children_of (s x)) (p ∷ []),
      t.child x c,
      t.dead p,
    );
    up = λ x e.
        let y = parent_of (s x) in
        let nz' = q-ne-null in
        ground (
          arith,
          live-nested y alive,
          live-nested q alive,
          parent-nested x,
          children-nested y no_children,
          children-nested q no_children,
          has-append x (children_of (s y)) (p ∷ []),
          has-append p (children_of (s q)) (p ∷ []),
          t.up x,
        );
    distinct = λ x. elim (Bool-cases (q == x)) [
      | inl e ↦
          rw (children-nested x no_children, e)
            (IsDistinct-append p (children_of (s x)) (t.distinct x) (ground (arith, new_child)))
      | inr e ↦ rw (children-nested x no_children, e) (t.distinct x)
    ];
    few = λ x.
        ground (
          arith,
          children-nested x no_children,
          length-append (children_of (s x)) (p ∷ []),
          t.few x,
        );
    dead = λ x e.
        ground
          (arith, live-nested x alive, parent-nested x, children-nested x no_children, t.dead x);
  }
