-- ===== src/Cap/Invariant/Children.antt =====
-- The array operation of `guest_unlink_from_parent`.
use fxlang.Prelude.{
  suc, ◌-◌, ◌≡◌, refl, ap, ◌&&◌, ◌||◌, not, List, [], ◌∷◌, arith, ◌==◌, Bool-cases, inl, inr,
  length, has, IsDistinct, Ptr, if◌then◌else◌,
}
use fxlang.Cap.Session.{last_of, all_but_last, last_first, remove_child}

has-last :
    (c x : Ptr) (xs : List Ptr)
    → ((last_of x xs == c) || has c (all_but_last x xs)) ≡ has c (x ∷ xs)
unfolding last_of all_but_last
has-last c x [] = refl
has-last c x (y ∷ xs) = ground (arith, has-last c y xs)

length-all_but_last : (x : Ptr) (xs : List Ptr) → length (all_but_last x xs) ≡ length xs
unfolding all_but_last
length-all_but_last x [] = refl
length-all_but_last x (y ∷ xs) = ap suc (length-all_but_last y xs)

IsDistinct-last :
    (x : Ptr) (xs : List Ptr) → IsDistinct (x ∷ xs) → IsDistinct (last_of x xs ∷ all_but_last x xs)
unfolding last_of all_but_last
IsDistinct-last x [] d = d
IsDistinct-last x (y ∷ xs) d =
    ground (arith, IsDistinct-last y xs d.1, has-last x y xs, has-last (last_of y xs) y xs)

has-last_first : (c : Ptr) (xs : List Ptr) → has c (last_first xs) ≡ has c xs
unfolding last_first
has-last_first c [] = refl
has-last_first c (x ∷ xs) = has-last c x xs

length-last_first : (xs : List Ptr) → length (last_first xs) ≡ length xs
unfolding last_first
length-last_first [] = refl
length-last_first (x ∷ xs) = ap suc (length-all_but_last x xs)

IsDistinct-last_first : (xs : List Ptr) → IsDistinct xs → IsDistinct (last_first xs)
unfolding last_first
IsDistinct-last_first [] d = d
IsDistinct-last_first (x ∷ xs) d = IsDistinct-last x xs d

-- Exactly one entry goes, the one asked for.
pub has-remove_child :
    (p c : Ptr) (xs : List Ptr)
    → IsDistinct xs
    → has c (remove_child p xs) ≡ (has c xs && not (c == p))
unfolding remove_child
has-remove_child p c [] d = refl
has-remove_child p c (x ∷ xs) d = ground (arith, has-last_first c xs, has-remove_child p c xs d.1)

pub length-remove_child :
    (p : Ptr) (xs : List Ptr) → length (remove_child p xs) ≡ length xs - (if has p xs then 1 else 0)
unfolding remove_child
length-remove_child p [] = omega arith
length-remove_child p (x ∷ xs) = ground (arith, length-last_first xs, length-remove_child p xs)

pub remove_child-nil : (p : Ptr) → remove_child p [] ≡ []
unfolding remove_child
remove_child-nil p = refl

pub IsDistinct-remove_child :
    (p : Ptr) (xs : List Ptr) → IsDistinct xs → IsDistinct (remove_child p xs)
unfolding remove_child
IsDistinct-remove_child p [] d = d
IsDistinct-remove_child p (x ∷ xs) d = elim (Bool-cases (x == p)) [
  | inl e ↦ rw e (IsDistinct-last_first xs d.1)
  | inr e ↦ rw e (ground (arith, has-remove_child p x xs d.1), IsDistinct-remove_child p xs d.1)
]
