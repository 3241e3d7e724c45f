-- ===== src/Cap/Path/Roots.antt =====
-- Which roots let anything through `path_allowed`, and which paths a usable root lets through.
use fxlang.Prelude.{
  ℕ, zero, suc, Bool-cases, inl, inr, ◌<◌, ◌≡◌, refl, ◌≢◌, Bool, true, false, ◌||◌, Option, some,
  none, All, ◌⊎◌, [], ◌∷◌, ◌++◌, arith, ◌==◌, Text, char_at, starts_with, append-starts_with,
  length,
}
use fxlang.Cap.Path.{root_size, mint_root, has_dotdot, is_sep, boundary_ok, path_allowed}
use fxlang.Cap.Path.Confined.{posix, components, push_char}

-- A root under which `path_allowed` accepts nothing.
abbrev pub is_barred : Text → Bool
is_barred root = is_sep (char_at root 0) || (char_at root 1 == b':') || has_dotdot root

starts_with-char_at :
    (s p : Text) (i : ℕ) → starts_with s p ≡ true → i < length p → char_at s i ≡ char_at p i
starts_with-char_at s [] i h lt = elim lt [ ]
starts_with-char_at [] (c ∷ p) i h lt = cc
starts_with-char_at (d ∷ s) (c ∷ p) zero h lt = ground arith
starts_with-char_at (d ∷ s) (c ∷ p) (suc i) h lt =
    starts_with-char_at s p i (ground arith) (omega arith)

has_dotdot-starts_with :
    (s p : Text) → starts_with s p ≡ true → has_dotdot p ≡ true → has_dotdot s ≡ true
unfolding has_dotdot
has_dotdot-starts_with s [] h d = cc
has_dotdot-starts_with [] (c ∷ p) h d = cc
has_dotdot-starts_with (a ∷ s) (c ∷ []) h d = ground arith
has_dotdot-starts_with (a ∷ []) (c ∷ e ∷ p) h d = ground arith
has_dotdot-starts_with (a ∷ b ∷ s) (c ∷ e ∷ p) h d =
    ground (arith, has_dotdot-starts_with (b ∷ s) (e ∷ p))

barred :
    (root path : Text) (live : Bool)
    → is_barred root ≡ true
    → starts_with path root ≡ true
    → path_allowed root live (some path) ≡ false
unfolding path_allowed has_dotdot
barred [] path live h p = cc
barred (c ∷ []) path live h p = ground (arith, starts_with-char_at path (c ∷ []) 0 p)
barred (c ∷ d ∷ s) path live h p = ground (
  arith,
  starts_with-char_at path (c ∷ d ∷ s) 0 p,
  starts_with-char_at path (c ∷ d ∷ s) 1 p,
  has_dotdot-starts_with path (c ∷ d ∷ s) p,
)

not_prefix :
    (root path : Text) (live : Bool)
    → starts_with path root ≡ false
    → path_allowed root live (some path) ≡ false
unfolding path_allowed
not_prefix root path live h = ground arith

all_barred :
    (root : Text) (live : Bool) (path : Option Text)
    → is_barred root ≡ true
    → path_allowed root live path ≡ false
all_barred root live none h = unfold path_allowed in refl
all_barred root live (some path) h = elim (Bool-cases (starts_with path root)) [
  | inl p ↦ barred root path live h p
  | inr p ↦ not_prefix root path live p
]

-- `mint_root` takes every non-empty root below 512 bytes, an absolute one too; but a root that
-- begins with a separator, has a colon as its second byte or holds two dots in a row lets no path
-- through.
pub mint_root_barred :
    (c : ℕ) (s : Text) (live : Bool) (path : Option Text)
    → length (c ∷ s) < root_size
    → is_barred (c ∷ s) ≡ true
    → (mint_root root_size (some (c ∷ s)) ≡ some (c ∷ s)) × (path_allowed (c ∷ s) live path ≡ false)
unfolding mint_root
mint_root_barred c s live path small h = (ground arith, all_barred (c ∷ s) live path h)

append-char_at : (s t : Text) (i : ℕ) → i < length s → char_at (s ++ t) i ≡ char_at s i
append-char_at [] t i h = elim h [ ]
append-char_at (c ∷ s) t zero h = refl
append-char_at (c ∷ s) t (suc i) h = append-char_at s t i (omega arith)

append-char_at-length : (s t : Text) → char_at (s ++ t) (length s) ≡ char_at t 0
append-char_at-length [] t = refl
append-char_at-length (c ∷ s) t = append-char_at-length s t

second_char :
    (c d : ℕ) (s t : Text) → is_sep d ≡ true → char_at s 0 ≢ b':' → char_at (s ++ d ∷ t) 0 ≢ b':'
second_char c d [] t h ne = ground arith
second_char c d (e ∷ s) t h ne = ne

has_dotdot-false :
    (s : Text) → ((i : ℕ) → char_at s i ≡ b'.' → char_at s (suc i) ≢ b'.') → has_dotdot s ≡ false
unfolding has_dotdot
has_dotdot-false [] h = refl
has_dotdot-false (c ∷ s) h = ground (arith, h 0, has_dotdot-false s (λ i. h (suc i)))

-- Under a live capability whose root is not empty, begins with neither '/' nor a backslash and does
-- not have a colon as its second byte, every path made of the root, a '/' or a backslash and anything
-- is let through, unless two dots stand in a row.
pub path_allowed_complete :
    (c d : ℕ) (s t : Text)
    → c ≢ 0
    → c ≢ b'/'
    → c ≢ b'\\'
    → char_at s 0 ≢ b':'
    → (d ≡ b'/') ⊎ (d ≡ b'\\')
    → ((i : ℕ) → char_at ((c ∷ s) ++ d ∷ t) i ≡ b'.' → char_at ((c ∷ s) ++ d ∷ t) (suc i) ≢ b'.')
    → path_allowed (c ∷ s) true (some ((c ∷ s) ++ d ∷ t)) ≡ true
unfolding path_allowed boundary_ok
path_allowed_complete c d s t nz rel rel' drive sep plain =
    let is : is_sep d ≡ true = ground arith in
    ground (
      arith,
      append-starts_with (c ∷ s) (d ∷ t),
      append-char_at-length (c ∷ s) (d ∷ t),
      second_char c d s t is drive,
      has_dotdot-false ((c ∷ s) ++ d ∷ t) plain,
    )

abbrev pub HasNoSlash : Text → Type 0
HasNoSlash = All (λ c. c ≢ b'/')

one_component : (s : Text) → HasNoSlash s → components posix s ≡ s ∷ []
unfolding components push_char
one_component [] h = refl
one_component (c ∷ s) h = ground (arith, h.0, one_component s h.1)

HasNoSlash-append : (s t : Text) → HasNoSlash s → HasNoSlash t → HasNoSlash (s ++ t)
HasNoSlash-append [] t hs ht = ht
HasNoSlash-append (c ∷ s) t (h, hs) ht = (h, HasNoSlash-append s t hs ht)

-- Under a live capability whose root is not empty, has no '/', does not begin with a backslash and does
-- not have a colon as its second byte: the root, a backslash and any text without '/' make a path that
-- is let through, unless two dots stand in a row; on POSIX it is one component, the name of a file
-- beside the root.
pub path_allowed_beside :
    (c : ℕ) (s t : Text)
    → c ≢ 0
    → c ≢ b'\\'
    → char_at s 0 ≢ b':'
    → HasNoSlash (c ∷ s)
    → HasNoSlash t
    → ((i : ℕ)
        → char_at ((c ∷ s) ++ b'\\' ∷ t) i ≡ b'.'
        → char_at ((c ∷ s) ++ b'\\' ∷ t) (suc i) ≢ b'.')
    → (path_allowed (c ∷ s) true (some ((c ∷ s) ++ b'\\' ∷ t)) ≡ true)
      × (components posix ((c ∷ s) ++ b'\\' ∷ t) ≡ ((c ∷ s) ++ b'\\' ∷ t) ∷ [])
path_allowed_beside c s t nz rel drive clean clean' plain = (
  path_allowed_complete c b'\\' s t nz clean.0 rel drive (inr refl) plain,
  one_component ((c ∷ s) ++ b'\\' ∷ t)
      (HasNoSlash-append (c ∷ s) (b'\\' ∷ t) clean ((λ e. omega (arith, e)), clean')),
)
