-- ===== src/Cap/Path/Confined.antt =====
-- What `path_allowed` guarantees of a path, component by component.
use fxlang.Prelude.{
  ℕ, ◌≡◌, refl, sym, ap, subst, ◌∙◌, ◌≢◌, ◌⊎◌, inl, inr, Bool, true, false, some, List, [], ◌∷◌,
  ◌++◌, arith, Bool-cases, if◌then◌else◌, Text, char_at, starts_with, starts_with-append, length,
  drop, All, ◌==◌, ◌||◌,
}
use fxlang.Cap.Path.{has_dotdot, boundary_ok, path_allowed}

-- The systems, by where they cut a path: '/' is 47, and Windows cuts at a backslash, 92, too.
pub data Platform : Type 0 where
  posix : Platform
  windows : Platform

abbrev pub cuts : Platform → ℕ → Bool
cuts posix c = c == 47
cuts windows c = (c == 47) || (c == 92)

-- A path that the system cuts where Windows does: on POSIX, one without backslashes.
abbrev pub Plain : Platform → Text → Type 0
Plain posix path = All (λ c. c ≢ 92) path
Plain windows path = Unit

-- The components of a path, cut at each separator.
unfoldable pub push_char : ℕ → List Text → List Text
push_char c [] = (c ∷ []) ∷ []
push_char c (w ∷ ws) = (c ∷ w) ∷ ws

unfoldable pub components : Platform → Text → List Text
components p [] = [] ∷ []
components p (c ∷ s) = if cuts p c then [] ∷ components p s else push_char c (components p s)

-- The root's own components: one separator at its end stands for none.
unfoldable pub root_components : Platform → Text → List Text
unfolding components
root_components p [] = []
root_components p (c ∷ []) = if cuts p c then [] ∷ [] else components p (c ∷ [])
root_components p (c ∷ d ∷ s) =
    if cuts p c then [] ∷ root_components p (d ∷ s) else push_char c (root_components p (d ∷ s))

abbrev pub dotdot : Text
dotdot = b'.' ∷ b'.' ∷ []

push_char-append :
    (c : ℕ) (ws vs : List Text) → ws ≢ [] → push_char c (ws ++ vs) ≡ push_char c ws ++ vs
unfolding push_char
push_char-append c [] vs h = absurd (h refl)
push_char-append c (w ∷ ws) vs h = refl

push_char-ne-nil : (c : ℕ) (ws : List Text) → push_char c ws ≢ []
unfolding push_char
push_char-ne-nil c [] = λ e. cc
push_char-ne-nil c (w ∷ ws) = λ e. cc

pub components-ne-nil : (s : Text) → components windows s ≢ []
unfolding components
components-ne-nil [] = λ e. cc
components-ne-nil (c ∷ s) = ground (arith, push_char-ne-nil c (components windows s))

-- A separator cuts a path in two.
pub components-append :
    (s t : Text) (c : ℕ)
    → cuts windows c ≡ true
    → components windows (s ++ c ∷ t) ≡ components windows s ++ components windows t
unfolding components
components-append [] t c h = ground arith
components-append (d ∷ s) t c h = ground (
  arith,
  components-append s t c h,
  push_char-append d (components windows s) (components windows t),
  components-ne-nil s,
)

root_components-ne-nil : (c : ℕ) (s : Text) → root_components windows (c ∷ s) ≢ []
unfolding root_components
root_components-ne-nil c [] = ground (arith, push_char-ne-nil c ([] ∷ []))
root_components-ne-nil c (d ∷ s) =
    ground (arith, push_char-ne-nil c (root_components windows (d ∷ s)))

ends_sep : Text → Bool
ends_sep [] = false
ends_sep (c ∷ []) = cuts windows c
ends_sep (c ∷ d ∷ s) = ends_sep (d ∷ s)

ends_sep-char_at : (c : ℕ) (s : Text) → cuts windows (char_at (c ∷ s) (length s)) ≡ ends_sep (c ∷ s)
unfolding ends_sep
ends_sep-char_at c [] = refl
ends_sep-char_at c (d ∷ s) = ends_sep-char_at d s

-- A root that ends in a separator, then anything.
components-of-sep :
    (root t : Text)
    → ends_sep root ≡ true
    → components windows (root ++ t) ≡ root_components windows root ++ components windows t
unfolding ends_sep root_components components
components-of-sep [] t h = cc
components-of-sep (c ∷ []) t h = ground arith
components-of-sep (c ∷ d ∷ s) t h = ground (
  arith,
  components-of-sep (d ∷ s) t h,
  push_char-append c (root_components windows (d ∷ s)) (components windows t),
  root_components-ne-nil d s,
)

root_components-eq-components :
    (c : ℕ) (s : Text)
    → ends_sep (c ∷ s) ≡ false
    → root_components windows (c ∷ s) ≡ components windows (c ∷ s)
unfolding ends_sep root_components components
root_components-eq-components c [] h = ground arith
root_components-eq-components c (d ∷ s) h = ground (arith, root_components-eq-components d s h)

-- The components of a path that continues a root: the root's, then others.
abbrev pub Below : Platform → Text → Text → Type 0
Below p root path =
    (rest : List Text) × (rest ≢ []) × (components p path ≡ root_components p root ++ rest)

Below-append :
    (c : ℕ) (s t : Text)
    → (cuts windows (char_at t 0) ≡ true) ⊎ (ends_sep (c ∷ s) ≡ true)
    → Below windows (c ∷ s) ((c ∷ s) ++ t)
Below-append c s t (inr e) =
    (components windows t, components-ne-nil t, components-of-sep (c ∷ s) t e)
Below-append c s [] (inl e) = cc
Below-append c s (d ∷ t) (inl e) = elim (Bool-cases (ends_sep (c ∷ s))) [
  | inl last ↦ (
    components windows (d ∷ t),
    components-ne-nil (d ∷ t),
    components-of-sep (c ∷ s) (d ∷ t) last,
  )
  | inr open_end ↦ (
    components windows t,
    components-ne-nil t,
    components-append (c ∷ s) t d e
        ∙ ap (λ w. w ++ components windows t) (sym (root_components-eq-components c s open_end)),
  )
]

first : List Text → Text
first [] = []
first (w ∷ ws) = w

first-components :
    (s : Text)
    → char_at (first (components windows s)) 0
      ≡ (if cuts windows (char_at s 0) then 0 else char_at s 0)
unfolding components push_char first
first-components [] = refl
first-components (c ∷ s) = elim (Bool-cases (cuts windows c)) [
  | inl e ↦ rw e refl
  | inr e ↦ rw e (go (components windows s))
]
  where
    go : (ws : List Text) → char_at (first (push_char c ws)) 0 ≡ c
    go [] = refl
    go (w ∷ ws) = refl

push_char-All :
    (c : ℕ) (ws : List Text)
    → ((c ≡ b'.') → char_at (first ws) 0 ≢ b'.')
    → All (λ w. w ≢ dotdot) ws
    → All (λ w. w ≢ dotdot) (push_char c ws)
unfolding push_char first
push_char-All c [] h a = ((λ e. cc), tt)
push_char-All c (w ∷ ws) h a = ((λ e. h (ap (λ v. char_at v 0) e) (ap (λ v. char_at v 1) e)), a.1)

-- Without two dots in a row no component is "..".
pub no_dotdot-components :
    (s : Text) → has_dotdot s ≡ false → All (λ w. w ≢ dotdot) (components windows s)
unfolding components has_dotdot
no_dotdot-components [] h = ((λ e. cc), tt)
no_dotdot-components (c ∷ s) h = elim (Bool-cases (cuts windows c)) [
  | inl e ↦ rw e ((λ d. cc), no_dotdot-components s (ground arith))
  | inr e ↦ rw e (
      push_char-All c (components windows s) (ground (arith, first-components s))
        (no_dotdot-components s (ground arith)))
]

-- What `path_allowed` has tested when it answers 1.
path_allowed_tests :
    (root path : Text) (live : Bool)
    → path_allowed root live (some path) ≡ true
    → (live ≡ true)
      × (cuts windows (char_at path 0) ≡ false)
      × (has_dotdot path ≡ false)
      × (starts_with path root ≡ true)
      × (boundary_ok root path ≡ true)
unfolding path_allowed
path_allowed_tests root path live h = ground arith

prefix_has_no_end :
    (s p : Text) → starts_with s p ≡ true → char_at s (length p) ≡ char_at (drop (length p) s) 0
prefix_has_no_end s [] h = refl
prefix_has_no_end [] (c ∷ p) h = cc
prefix_has_no_end (d ∷ s) (c ∷ p) h = prefix_has_no_end s p (ground arith)

boundary_splits :
    (c : ℕ) (s path : Text)
    → starts_with path (c ∷ s) ≡ true
    → boundary_ok (c ∷ s) path ≡ true
    → (cuts windows (char_at (drop (length (c ∷ s)) path) 0) ≡ true) ⊎ (ends_sep (c ∷ s) ≡ true)
unfolding boundary_ok
boundary_splits c s path p b =
    ground (arith, prefix_has_no_end path (c ∷ s) p, ends_sep-char_at c s)

-- As cut on Windows.
pub path_allowed-Below_windows :
    (root path : Text) (live : Bool)
    → root ≢ []
    → path_allowed root live (some path) ≡ true
    → (live ≡ true)
      × (cuts windows (char_at path 0) ≡ false)
      × All (λ w. w ≢ dotdot) (components windows path)
      × Below windows root path
path_allowed-Below_windows [] path live ne h = absurd (ne refl)
path_allowed-Below_windows (c ∷ s) path live ne h =
    let (alive, relative, plain, prefix, boundary) = path_allowed_tests (c ∷ s) path live h in
    (
      alive,
      relative,
      no_dotdot-components path plain,
      subst (Below windows (c ∷ s)) (sym (starts_with-append path (c ∷ s) prefix)) (
          Below-append c s (drop (length (c ∷ s)) path) (boundary_splits c s path prefix boundary)),
    )

-- Without backslashes both systems cut a path alike.
pub components-Plain : (p : Platform) (s : Text) → Plain p s → components p s ≡ components windows s
unfolding components
components-Plain windows s h = refl
components-Plain posix [] h = refl
components-Plain posix (c ∷ s) h = ground (arith, h.0, components-Plain posix s h.1)

root_components-Plain :
    (p : Platform) (s : Text) → Plain p s → root_components p s ≡ root_components windows s
unfolding root_components components
root_components-Plain windows s h = refl
root_components-Plain posix [] h = refl
root_components-Plain posix (c ∷ []) h = ground (arith, h.0)
root_components-Plain posix (c ∷ d ∷ s) h =
    ground (arith, h.0, root_components-Plain posix (d ∷ s) h.1)

Plain-starts_with :
    (p : Platform) (s root : Text) → starts_with s root ≡ true → Plain p s → Plain p root
Plain-starts_with windows s root e h = tt
Plain-starts_with posix s [] e h = tt
Plain-starts_with posix [] (c ∷ root) e h = cc
Plain-starts_with posix (d ∷ s) (c ∷ root) e h =
    ((λ b. h.0 (ground arith)), Plain-starts_with posix s root (ground arith) h.1)

char_at-length : (s : Text) → char_at s (length s) ≡ 0
char_at-length [] = refl
char_at-length (c ∷ s) = char_at-length s

-- The path is not the root itself, and no drive stands before it.
path_allowed_apart :
    (root path : Text) (live : Bool)
    → path_allowed root live (some path) ≡ true
    → (char_at path (length root) ≢ 0) × (char_at path 1 ≢ b':')
unfolding path_allowed
path_allowed_apart root path live h = ((λ e. ground arith), (λ e. ground arith))

pub cuts-windows : (p : Platform) (c : ℕ) → cuts windows c ≡ false → cuts p c ≡ false
cuts-windows posix c h = ground arith
cuts-windows windows c h = h

-- A path that `path_allowed` lets through a non-empty root, and that on POSIX has no backslash: the
-- capability is live, the path is not the root itself, it begins with no separator and has no colon as
-- its second byte, none of its components is "..", and its components are the root's, then at least
-- one more (an empty one where the path ends in a separator). A component ends at each '/', and on
-- Windows at each backslash.
pub path_allowed-Below :
    (p : Platform) (root path : Text) (live : Bool)
    → Plain p path
    → root ≢ []
    → path_allowed root live (some path) ≡ true
    → (live ≡ true)
      × (path ≢ root)
      × (cuts p (char_at path 0) ≡ false)
      × (char_at path 1 ≢ b':')
      × All (λ w. w ≢ dotdot) (components p path)
      × Below p root path
path_allowed-Below p root path live clean ne h =
    let (alive, relative, plain, below) = path_allowed-Below_windows root path live ne h in
    let (rest, some_rest, e) = below in
    let (longer, no_drive) = path_allowed_apart root path live h in
    let (_, _, _, prefix, _) = path_allowed_tests root path live h in
    let same = components-Plain p path clean in
    let same_root = root_components-Plain p root (Plain-starts_with p path root prefix clean) in
    (
      alive,
      (λ here. longer (ap (λ s. char_at s (length root)) here ∙ char_at-length root)),
      cuts-windows p (char_at path 0) relative,
      no_drive,
      subst (All (λ w. w ≢ dotdot)) (sym same) plain,
      (rest, some_rest, same ∙ e ∙ ap (λ r. r ++ rest) (sym same_root)),
    )
