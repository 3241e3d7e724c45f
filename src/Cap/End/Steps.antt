-- ===== src/Cap/End/Steps.antt =====
-- The parts of a run of `fx_guest_end` (host/cap/fx_cap_runtime.c): one round of its loop, its last
-- part, and what each leaves.
use fxlang.Prelude.{
  ℕ, suc, ◌+◌, ◌-◌, ◌*◌, ◌≤◌, ◌<◌, ◌≡◌, refl, ap, subst, ◌∙◌, ◌≢◌, ◌⊎◌, inl, inr, true, false, some,
  List, [], ◌∷◌, arith, ◌==◌, Bool-cases, Option-cases, length, has, Ptr,
}
use fxlang.Cap.{Guest, Runtime}
use fxlang.Cap.Session.{guest_end, end_children, tear_down}
use fxlang.Cap.Invariant.{live_of, children_of, owned_of, IsValid}
use fxlang.Cap.Invariant.Tree.{
  parent-ne_self, live-tear_down, parent-tear_down, owned-tear_down, tear_down-IsTree,
}
use fxlang.Cap.Invariant.Owned.{tear_down-IsOwned}
use fxlang.Cap.Invariant.Under
use fxlang.Cap.Invariant.Under.{Under, here, up, Shrinks}

module _ (depth : Ptr → ℕ) (owner : Ptr → Ptr) where
  -- What a call leaves: sessions ended are under `p`, and the others are as they were.
  pub record Left (rt : Runtime) (p : Ptr) (rt' : Runtime) : Type 0 where
    pub valid : IsValid depth owner rt'
    pub spared :
        (x : Ptr)
        → live_of (rt.guests x) ≡ true
        → (live_of (rt'.guests x) ≡ true) ⊎ Under rt.guests p x
    pub shrinks : Shrinks rt.guests rt'.guests
    pub kept : (x : Ptr) → owned_of (rt'.guests x) ≡ owned_of (rt.guests x)

  Left-refl : (rt : Runtime) (p : Ptr) → IsValid depth owner rt → Left rt p rt
  Left-refl rt p v = record {
    valid = v;
    spared = λ x h. inl h;
    shrinks = Under.Shrinks-refl rt.guests;
    kept = λ x. refl;
  }

  -- A call for a session under `p`, then one for `p`.
  Left-trans :
      (rt : Runtime) (c : Ptr) (rt' : Runtime) (p : Ptr) (rt'' : Runtime)
      → Under rt.guests p c
      → Left rt c rt'
      → Left rt' p rt''
      → Left rt p rt''
  Left-trans rt c rt' p rt'' under l m = record {
    valid = m.valid;
    spared = λ x h. elim (l.spared x h) [
      | inr u ↦ inr (Under.Under-trans under u)
      | inl h' ↦ elim (m.spared x h') [
        | inl h'' ↦ inl h''
        | inr u ↦ inr (Under.Under-Shrinks depth rt.guests rt'.guests l.valid.tree l.shrinks u)
      ]
    ];
    shrinks = Under.Shrinks-trans rt.guests rt'.guests rt''.guests l.shrinks m.shrinks;
    kept = λ x. m.kept x ∙ l.kept x;
  }

  -- The last part of the call.
  tear_down-Left :
      (rt : Runtime) (p : Ptr) (g : Guest)
      → rt.guests p ≡ some g
      → g.children ≡ []
      → IsValid depth owner rt
      → Left rt p (tear_down rt p)
  tear_down-Left rt p g at_p childless v =
      let ne = parent-ne_self depth rt p g at_p v.tree in
      record {
        valid = record {
          tree = tear_down-IsTree depth rt p g at_p v.tree childless;
          owning = tear_down-IsOwned depth owner rt p g at_p v.tree v.owning;
        };
        spared = λ x h. elim (Bool-cases (p == x)) [
          | inl e ↦ inr (subst (Under rt.guests p) (ground arith) here)
          | inr e ↦ inl (ground (arith, live-tear_down rt p g at_p ne x))
        ];
        shrinks =
            λ x. ground (arith, live-tear_down rt p g at_p ne x, parent-tear_down rt p g at_p ne x);
        kept = owned-tear_down rt p g at_p ne;
      }

  abbrev pub Bounded : ℕ → Runtime → Type 0
  Bounded deepest rt = (x : Ptr) → live_of (rt.guests x) ≡ true → depth x ≤ deepest

  pub Left-Bounded :
      (deepest : ℕ) (rt : Runtime) (p : Ptr) (rt' : Runtime)
      → Left rt p rt'
      → Bounded deepest rt
      → Bounded deepest rt'
  Left-Bounded deepest rt p rt' l b x h = ground (arith, l.shrinks x, b x)

  pub has_child :
      (rt : Runtime) (c p : Ptr)
      → IsValid depth owner rt
      → has c (children_of (rt.guests p)) ≡ true
      → p ≢ 0
  has_child rt c p v h e = ground (arith, v.tree.null, ap rt.guests e)

  -- The children of a session after one of them has been ended.
  pub fewer_children :
      (rt : Runtime) (c p : Ptr) (rt' : Runtime)
      → IsValid depth owner rt
      → Left rt c rt'
      → has c (children_of (rt.guests p)) ≡ true
      → live_of (rt'.guests c) ≡ false
      → length (children_of (rt'.guests p)) < length (children_of (rt.guests p))
  fewer_children rt c p rt' v l child gone =
      Under.length-lt c _ _ (l.valid.tree.distinct p) (v.tree.distinct p)
        (λ x h.
          let nz = has_child rt c p v child in
          ground (arith, l.valid.tree.child p x h, l.shrinks x, v.tree.up x))
        lost child
    where
      lost : has c (children_of (rt'.guests p)) ≡ false
      lost = elim (Bool-cases (has c (children_of (rt'.guests p)))) [
        | inl e ↦ ground (arith, l.valid.tree.child p c e)
        | inr e ↦ e
      ]

  -- The session above an ended child is still live.
  pub parent_survives :
      (rt : Runtime) (c p : Ptr) (rt' : Runtime)
      → IsValid depth owner rt
      → Left rt c rt'
      → has c (children_of (rt.guests p)) ≡ true
      → live_of (rt.guests p) ≡ true
      → live_of (rt'.guests p) ≡ true
  parent_survives rt c p rt' v l child alive = elim (l.spared p alive) [
    | inl h ↦ h
    | inr u ↦
        let nz = has_child rt c p v child in
        ground (arith, Under.depth-Under depth v.tree u, v.tree.child p c child, v.tree.up c)
  ]

  -- The fuel that one session needs, by how many levels can still be below it.
  abbrev pub fuel_at : ℕ → Ptr → ℕ
  fuel_at deepest p = 10 * (deepest - depth p) + 10

  abbrev pub Ends : ℕ → Runtime → Ptr → Type 0
  Ends f rt p =
      (rt' : Runtime) × (guest_end f rt p ≡ some rt')
      × Left rt p rt'
      × (live_of (rt'.guests p) ≡ false)

  abbrev pub Empties : ℕ → Runtime → Ptr → Type 0
  Empties f rt p =
      (rt' : Runtime) × (end_children f rt p ≡ some rt')
      × Left rt p rt'
      × (live_of (rt'.guests p) ≡ true)
      × (children_of (rt'.guests p) ≡ [])

  -- The call, from what its loop does.
  pub Ends-suc :
      (f : ℕ) (rt : Runtime) (p : Ptr)
      → live_of (rt.guests p) ≡ true
      → Empties f rt p
      → Ends (suc f) rt p
  unfolding guest_end
  Ends-suc f rt p alive (rt', run, left, alive', childless) = elim (Option-cases (rt'.guests p)) [
    | inl e ↦ absurd (ground arith)
    | inr (g, e) ↦ (
      tear_down rt' p,
      ground arith,
      Left-trans rt p rt' p (tear_down rt' p) here left
          (tear_down-Left rt' p g e (ground arith) left.valid),
      ground (arith, live-tear_down rt' p g e (parent-ne_self depth rt' p g e left.valid.tree) p),
    )
  ]

  -- The loop, from what one round does.
  pub Empties-suc :
      (f : ℕ) (rt : Runtime) (c p : Ptr) (cs : List Ptr)
      → IsValid depth owner rt
      → children_of (rt.guests p) ≡ c ∷ cs
      → (round : Ends f rt c) → Empties f round.0 p
      → Empties (suc f) rt p
  unfolding end_children
  Empties-suc f rt c p cs v first (rt', run, left, gone) (rt'', run', left', alive, empty) =
      let child : has c (children_of (rt.guests p)) ≡ true = ground arith in
      let nz = has_child rt c p v child in
      let nz' : c ≢ 0 = λ e. ground (arith, v.tree.child p c child, v.tree.null, ap rt.guests e) in
      (
        rt'',
        ground (arith, run, run'),
        Left-trans rt c rt' p rt'' (Under.Under-child rt.guests p c nz (v.tree.child p c child).1)
            left left',
        alive,
        empty,
      )

  -- The loop has nothing to do.
  pub Empties-nil :
      (f : ℕ) (rt : Runtime) (p : Ptr)
      → IsValid depth owner rt
      → live_of (rt.guests p) ≡ true
      → children_of (rt.guests p) ≡ []
      → Empties (suc f) rt p
  unfolding end_children
  Empties-nil f rt p v alive e = (rt, ground arith, Left-refl rt p v, alive, e)
