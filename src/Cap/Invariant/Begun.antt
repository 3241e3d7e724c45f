-- ===== src/Cap/Invariant/Begun.antt =====
-- New sessions keep the runtime valid (host/cap/fx_cap_runtime.c, `fx_guest_begin`).
use fxlang.Prelude.{
  suc, ◌<◌, ◌≡◌, refl, subst, ◌≢◌, inl, inr, true, ◌||◌, Option, none, some, [], ◌∷◌, ◌++◌, arith,
  ◌==◌, leb, Bool-cases, Option-cases, length, Ptr, update, Text, ℤ,
}
use fxlang.Cap.{Guest, Runtime, put_guest, live_guest, max_children}
use fxlang.Cap.Session.{
  new_guest, session_root, nested_root, arena_bytes_or_default, guest_begin, guest_begin_nested,
}
use fxlang.Cap.Invariant.Tree.{IsTree-root, IsTree-nested}
use fxlang.Cap.Invariant.Steps.{IsSound, live_guest-some}

-- A new session without parent.
pub guest_begin-IsSound :
    (rt : Runtime) (fresh arena : Ptr) (root : Option Text) (bytes : ℤ)
    → rt.guests fresh ≡ none
    → IsSound rt
    → IsSound (guest_begin rt fresh arena root bytes).1
unfolding guest_begin
guest_begin-IsSound rt fresh arena root bytes unused (depth, owner, v) =
    elim (Option-cases (session_root root)) [
      | inl e ↦ subst IsSound (ground arith) (depth, owner, v)
      | inr (r, e) ↦ elim (Bool-cases ((fresh == 0) || (arena == 0))) [
        | inl failed ↦ subst IsSound (ground arith) (depth, owner, v)
        | inr given ↦ subst IsSound (ground arith) (begun r (ground arith))
      ]
    ]
  where
    begun :
        (r : Text)
        → fresh ≢ 0
        → IsSound (put_guest rt fresh (new_guest r arena (arena_bytes_or_default bytes) 0))
    begun r nz =
        let g = new_guest r arena (arena_bytes_or_default bytes) 0 in
        (
          depth,
          owner,
          record {
            tree = IsTree-root depth rt.guests fresh g nz unused refl refl refl v.tree;
            owning = record {
              null = v.owning.null;
              held = λ x q e. ground (arith, v.owning.held x q);
              backed = λ q ctx budget e. ground (arith, v.owning.backed q ctx budget);
            };
          },
        )

-- A new session under a live one.
pub guest_begin_nested-IsSound :
    (rt : Runtime) (parent fresh arena : Ptr) (root : Option Text) (bytes : ℤ)
    → rt.guests fresh ≡ none
    → IsSound rt
    → IsSound (guest_begin_nested rt parent fresh arena root bytes).1
unfolding guest_begin_nested
guest_begin_nested-IsSound rt parent fresh arena root bytes unused (depth, owner, v) =
    elim (Option-cases (live_guest (rt.guests parent))) [
      | inl e ↦ subst IsSound (ground arith) (depth, owner, v)
      | inr (h, e) ↦ elim (Option-cases (session_root (nested_root h root))) [
        | inl e' ↦ subst IsSound (ground arith) (depth, owner, v)
        | inr (r, e') ↦
            elim (Bool-cases
              (leb max_children (length h.children) || (fresh == 0) || (arena == 0))) [
                | inl failed ↦ subst IsSound (ground arith) (depth, owner, v)
                | inr given ↦ subst IsSound (ground arith) (
                    begun h r (live_guest-some (rt.guests parent) h e).0
                      (live_guest-some (rt.guests parent) h e).1 (ground arith) (ground arith))
              ]
      ]
    ]
  where
    begun :
        (h : Guest) (r : Text)
        → rt.guests parent ≡ some h
        → h.live ≡ true
        → fresh ≢ 0
        → length h.children < 8
        → IsSound (
            put_guest
              (put_guest rt fresh (new_guest r arena (arena_bytes_or_default bytes) parent))
              parent
              (record h { children = h.children ++ (fresh ∷ []) }))
    begun h r at_p alive nz room =
        let g = new_guest r arena (arena_bytes_or_default bytes) parent in
        (
          update depth fresh (suc (depth parent)),
          owner,
          record {
            tree =
                IsTree-nested depth rt.guests fresh parent g h nz unused at_p v.tree refl refl refl
                  alive room;
            owning = record {
              null = v.owning.null;
              held = λ x q e. ground (arith, v.owning.held x q);
              backed = λ q ctx budget e. ground (arith, v.owning.backed q ctx budget);
            };
          },
        )
