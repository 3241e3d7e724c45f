-- ===== src/Cap/Invariant/Under.antt =====
-- Sessions nested under a session, and what ending some sessions leaves of the forest.
use fxlang.Prelude.{
  ℕ, ◌≤◌, ◌<◌, ◌≡◌, refl, subst, ◌≢◌, ◌⊎◌, inr, true, false, List, [], ◌∷◌, arith, length, has,
  IsDistinct, Ptr, Table,
}
use fxlang.Cap.{Guest}
use fxlang.Cap.Session.{remove_child}
use fxlang.Cap.Invariant.{live_of, parent_of, IsTree}
use fxlang.Cap.Invariant.Children.{has-remove_child, length-remove_child, IsDistinct-remove_child}

-- The parent pointers lead from the second session to the first.
pub data Under (guests : Table Guest) (a : Ptr) : Ptr → Type 0 where
  here : Under guests a a
  up :
      {x : Ptr}
      → parent_of (guests x) ≢ 0
      → Under guests a (parent_of (guests x))
      → Under guests a x

pub Under-trans : {s : Table Guest} {a b x : Ptr} → Under s a b → Under s b x → Under s a x
Under-trans u here = u
Under-trans u (up ne v) = up ne (Under-trans u v)

pub depth-Under :
    {s : Table Guest} {a x : Ptr} (depth : Ptr → ℕ)
    → IsTree depth s
    → Under s a x
    → depth a ≤ depth x
depth-Under depth t here = omega arith
depth-Under depth t (up {x} ne u) = omega (arith, depth-Under depth t u, (t.up x ne).2)

pub Under-child : (s : Table Guest) (p c : Ptr) → p ≢ 0 → parent_of (s c) ≡ p → Under s p c
Under-child s p c nz e = up (rw e nz) (rw e here)

-- A session of `t` is one of `s`, with the same parent, or dead.
abbrev pub Shrinks : Table Guest → Table Guest → Type 0
Shrinks s t =
    (x : Ptr)
    → (live_of (t x) ≡ false)
      ⊎ ((live_of (t x) ≡ live_of (s x)) × (parent_of (t x) ≡ parent_of (s x)))

pub Shrinks-refl : (s : Table Guest) → Shrinks s s
Shrinks-refl s x = inr (refl, refl)

pub Shrinks-trans : (s t u : Table Guest) → Shrinks s t → Shrinks t u → Shrinks s u
Shrinks-trans s t u h k x = ground (arith, h x, k x)

pub Under-Shrinks :
    (depth : Ptr → ℕ) (s t : Table Guest) {a x : Ptr}
    → IsTree depth t
    → Shrinks s t
    → Under t a x
    → Under s a x
Under-Shrinks depth s t tree h here = here
Under-Shrinks depth s t tree h (up {x} ne u) =
    let same : parent_of (t x) ≡ parent_of (s x) = ground (arith, h x, tree.dead x) in
    up (rw same at ne) (subst (Under s _) same (Under-Shrinks depth s t tree h u))

-- If a session is dead in a forest that shrank, so is all that was under it.
pub Under-dead :
    (depth : Ptr → ℕ) (s t : Table Guest) {a x : Ptr}
    → IsTree depth t
    → Shrinks s t
    → live_of (t a) ≡ false
    → Under s a x
    → live_of (t x) ≡ false
Under-dead depth s t tree h gone here = gone
Under-dead depth s t tree h gone (up {x} ne u) =
    ground (arith, Under-dead depth s t tree h gone u, h x, tree.up x)

has-length : (p : Ptr) (xs : List Ptr) → has p xs ≡ true → 1 ≤ length xs
has-length p [] h = cc
has-length p (x ∷ xs) h = omega arith

length-subset :
    (xs ys : List Ptr)
    → IsDistinct xs
    → IsDistinct ys
    → ((x : Ptr) → has x xs ≡ true → has x ys ≡ true)
    → length xs ≤ length ys
length-subset [] ys d e sub = omega arith
length-subset (x ∷ xs) ys d e sub =
    let in_ys : has x ys ≡ true = sub x (ground arith) in
    let rest : length xs ≤ length (remove_child x ys) =
      length-subset xs (remove_child x ys) d.1 (IsDistinct-remove_child x ys e)
        (λ y h. ground (arith, has-remove_child x y ys e, sub y, d.0)) in
    ground (arith, rest, in_ys, length-remove_child x ys, has-length x ys)

-- A list of children that lost one, and gained none, is shorter.
pub length-lt :
    (c : Ptr) (xs ys : List Ptr)
    → IsDistinct xs
    → IsDistinct ys
    → ((x : Ptr) → has x xs ≡ true → has x ys ≡ true)
    → has c xs ≡ false
    → has c ys ≡ true
    → length xs < length ys
length-lt c xs ys d e sub out in_ys =
    length-subset (c ∷ xs) ys (out, d) e (λ x h. ground (arith, sub x))
