-- ===== src/Cap/Path.antt =====
-- The path rule of host/cap/fx_cap_runtime.c: what a rooted capability lets through.
pub mod Confined
pub mod Roots
use fxlang.Prelude.{
  ℕ, zero, suc, ◌+◌, ◌-◌, ◌<◌, ◌≡◌, refl, Bool, true, false, ◌&&◌, ◌||◌, not, Option, none, some,
  List, [], ◌∷◌, ◌++◌, arith, ◌==◌, ltb, leb, if◌then◌else◌, Text, char_at, starts_with, length,
}

-- The size of the `root` buffers.
abbrev pub root_size : ℕ
root_size = 512

-- What `memcpy` leaves in the buffer, where `mint_root` returns 1.
unfoldable pub mint_root : ℕ → Option Text → Option Text
mint_root size none = none
mint_root size (some []) = none
mint_root size (some (c ∷ s)) = if leb size (length (c ∷ s)) then none else some (c ∷ s)

unfoldable pub has_dotdot : Text → Bool
has_dotdot [] = false
has_dotdot (c ∷ s) = ((c == b'.') && (char_at s 0 == b'.')) || has_dotdot s

-- `c == '/' || c == '\\'`
abbrev pub is_sep : ℕ → Bool
is_sep c = (c == 47) || (c == 92)

-- The last test of `path_allowed`: a separator follows the root, or ends it.
unfoldable pub boundary_ok : Text → Text → Bool
boundary_ok root path =
    if is_sep (char_at path (length root))
    then true
    else if ltb 0 (length root)
    then is_sep (char_at root (length root - 1))
    else true

unfoldable pub path_allowed : Text → Bool → Option Text → Bool
path_allowed root live none = false
path_allowed root live (some path) =
    if not live || (char_at path 0 == 0)
    then false
    else if is_sep (char_at path 0)
    then false
    else if char_at path 1 == b':'
    then false
    else if has_dotdot path
    then false
    else if not (starts_with path root)
    then false
    else if char_at path (length root) == 0
    then false
    else boundary_ok root path
