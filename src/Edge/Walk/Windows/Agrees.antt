-- ===== src/Edge/Walk/Windows/Agrees.antt =====
-- The functions as compiled for Windows against those compiled for POSIX (host/std_fs_walk/ref.c).
use mathlib.Core.Path.{fun_ext}
use fxlang.Prelude.{
  ℕ, ◌+◌, ◌<◌, ◌≡◌, refl, sym, ap, inl, inr, false, Option, none, some, List, [], ◌∷◌, arith, leb,
  if◌then◌else◌, Bool-cases, Text, length, Option-cases, map_option,
}
use fxlang.Edge.Walk.{
  Buffer, Memory, ensure_cap, put, shown, list_open, list_into, then_do, fx_fs_list_names,
  fx_fs_list_ok,
}
use fxlang.Edge.Walk.Names.{HasNoNul}
use fxlang.Edge.Walk.Windows.{
  Finder, max_path, pattern_of, list_asked, list_into_windows, fx_fs_list_names_windows,
  fx_fs_list_ok_windows,
}
use fxlang.Edge.Walk.Windows.Pattern.{spelled, pattern_of-spelled}

-- What is found for a path: nothing if it has more than 256 bytes.
abbrev pub search_for : Finder → Text → Option (List Text)
search_for find path =
    if leb max_path (length path + 3)
    then none
    else map_option (λ (first, rest). first ∷ rest) (find (spelled path))

asked_agree :
    (m : Memory) (path : Text) (junk : ℕ → ℕ) (find : Finder) (empty : Buffer)
    → pattern_of path junk
      ≡ some (if leb max_path (length path + 3) then none else some (spelled path))
    → then_do (pattern_of path junk) (λ asked. list_asked m asked find empty)
      ≡ (elim (search_for find path) [ none ↦ shown empty | some names ↦ list_open m names empty ])
unfolding list_asked
asked_agree m path junk find empty pattern = elim (Bool-cases (leb max_path (length path + 3))) [
  | inl long ↦ ground (arith, pattern, long)
  | inr short ↦ elim (Option-cases (find (spelled path))) [
    | inl e ↦ ground (arith, pattern, short, e)
    | inr (found, e) ↦ ground (arith, pattern, short, e)
  ]
]

into_agree :
    (m : Memory) (c : ℕ) (s : Text) (junk : ℕ → ℕ) (find : Finder) (start : Buffer)
    → pattern_of (c ∷ s) junk
      ≡ some (if leb max_path (length (c ∷ s) + 3) then none else some (spelled (c ∷ s)))
    → list_into_windows m (some (c ∷ s)) junk find start
      ≡ list_into m (some (c ∷ s)) (search_for find (c ∷ s)) start
unfolding list_into_windows list_into
into_agree m c s junk find start pattern =
    ap (then_do (put 0 0 start)) (fun_ext (λ empty. asked_agree m (c ∷ s) junk find empty pattern))

ok_agree :
    (path : Text) (junk : ℕ → ℕ) (find : Finder)
    → 0 < length path
    → pattern_of path junk
      ≡ some (if leb max_path (length path + 3) then none else some (spelled path))
    → fx_fs_list_ok_windows (some path) junk find
      ≡ some (fx_fs_list_ok (some path) (search_for find path))
unfolding fx_fs_list_ok_windows fx_fs_list_ok
ok_agree path junk find named pattern = elim (Bool-cases (leb max_path (length path + 3))) [
  | inl long ↦ ground (arith, pattern, long)
  | inr short ↦ elim (Option-cases (find (spelled path))) [
    | inl e ↦ ground (arith, pattern, short, e)
    | inr (found, e) ↦ ground (arith, pattern, short, e)
  ]
]

blank_is_not_ok : (directory : Option (List Text)) → fx_fs_list_ok (some []) directory ≡ false
unfolding fx_fs_list_ok
blank_is_not_ok none = refl
blank_is_not_ok (some names) = refl

-- For a path without NUL bytes, the two functions as compiled for Windows give what they give as
-- compiled for POSIX in a directory of the entries that FindFirstFileA and FindNextFileA find for
-- the path, a separator unless it ends in one, and "*"; for a path of more than 256 bytes that is a
-- directory that cannot be opened. They write the pattern within its array of 260 bytes.
pub windows_agrees :
    (m : Memory) (path : Text) (junk : ℕ → ℕ) (find : Finder) (b : Buffer)
    → HasNoNul path
    → (fx_fs_list_names_windows m (some path) junk find b
        ≡ fx_fs_list_names m (some path) (search_for find path) b)
      × (fx_fs_list_ok_windows (some path) junk find
          ≡ some (fx_fs_list_ok (some path) (search_for find path)))
unfolding fx_fs_list_names_windows fx_fs_list_names fx_fs_list_ok_windows fx_fs_list_ok
    list_into_windows list_into
windows_agrees m [] junk find b clean = (refl, ap some (sym (blank_is_not_ok (search_for find []))))
windows_agrees m (c ∷ s) junk find b clean =
    let pattern = pattern_of-spelled (c ∷ s) junk clean (omega arith) in
    (
      ap (then_do (ensure_cap m 1 b)) (
          fun_ext (λ r.
            ap (λ into. if r.0 then into else some ([], r.1))
              (into_agree m c s junk find r.1 pattern))),
      ok_agree (c ∷ s) junk find (omega arith) pattern,
    )
