-- ===== src/Edge/Walk/Windows.antt =====
-- The directory listing (host/std_fs_walk/ref.c), as it is compiled for Windows: the pattern for
-- FindFirstFileA is put together in an array of MAX_PATH bytes on the stack.
pub mod Pattern
pub mod Agrees
use fxlang.Prelude.{
  ℕ, ◌+◌, ◌-◌, Bool, true, false, not, ◌&&◌, ◌||◌, Option, none, some, List, [], ◌∷◌, ltb, leb,
  ◌==◌, if◌then◌else◌, Text, is_blank, get_or, length,
}
use fxlang.Edge.Walk.{
  Buffer, Memory, ensure_cap, copy_in, put, then_do, string_at, shown, list_open,
}

-- MAX_PATH
abbrev pub max_path : ℕ
max_path = 260

abbrev pub ends_in_sep : Text → Bool
ends_in_sep path =
    (get_or path (length path - 1) 0 == b'\\') || (get_or path (length path - 1) 0 == b'/')

-- `pattern[plen++] = '*'; pattern[plen] = '\0';`
unfoldable pub put_star : (plen : ℕ) → Buffer → Option Buffer
put_star plen b = then_do (put plen b'*' b) λ starred. put (plen + 1) 0 starred

-- The array, with what lay in it before.
unfoldable pub fill_pattern : (path : Text) → (junk : ℕ → ℕ) → Option Buffer
fill_pattern path junk = then_do (copy_in 0 path (record { cell = junk; size = max_path })) λ b.
    if ltb 0 (length path) && not (ends_in_sep path)
    then then_do (put (length path) b'\\' b) (λ cut. put_star (length path + 1) cut)
    else put_star (length path) b

-- The pattern that is searched for, and the `none` within for a path that is refused as too long.
unfoldable pub pattern_of : (path : Text) → (junk : ℕ → ℕ) → Option (Option Text)
pattern_of path junk =
    if leb max_path (length path + 3)
    then some none
    else then_do (fill_pattern path junk) λ b. some (some (string_at b.cell b.size 0))

abbrev pub text_of : Option Text → Text
text_of none = []
text_of (some s) = s

-- What FindFirstFileA finds for a pattern, and FindNextFileA after it.
abbrev pub Finder : Type 0
Finder = Text → Option (Text × List Text)

-- The search, where `asked` is the pattern, into a buffer that is empty.
unfoldable pub list_asked :
    Memory → (asked : Option Text) → Finder → Buffer → Option (Text × Buffer)
list_asked m none find empty = shown empty
list_asked m (some pattern) find empty = elim (find pattern) [
  | none ↦ shown empty
  | some (first, rest) ↦ list_open m (first ∷ rest) empty
]

-- The listing once there is room for the terminator.
unfoldable pub list_into_windows :
    Memory → (path : Option Text) → (junk : ℕ → ℕ) → Finder → Buffer → Option (Text × Buffer)
list_into_windows m path junk find start = then_do (put 0 0 start) λ empty.
    if is_blank path
    then shown empty
    else then_do (pattern_of (text_of path) junk) (λ asked. list_asked m asked find empty)

unfoldable pub fx_fs_list_names_windows :
    Memory → (path : Option Text) → (junk : ℕ → ℕ) → Finder → Buffer → Option (Text × Buffer)
fx_fs_list_names_windows m path junk find b =
    then_do (ensure_cap m 1 b)
      λ (ok, start). if ok then list_into_windows m path junk find start else some ([], start)

unfoldable pub fx_fs_list_ok_windows : (path : Option Text) → (junk : ℕ → ℕ) → Finder → Option Bool
fx_fs_list_ok_windows path junk find =
    if is_blank path
    then some false
    else then_do (pattern_of (text_of path) junk) λ asked. elim asked [
      | none ↦ some false
      | some pattern ↦ elim (find pattern) [ none ↦ some false | some found ↦ some true ]
    ]
