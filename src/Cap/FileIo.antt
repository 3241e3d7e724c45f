-- ===== src/Cap/FileIo.antt =====
-- Reads and writes of files under a capability (host/cap/fx_cap_runtime.c).
pub mod Confined
use fxlang.Prelude.{
  ℕ, ◌+◌, ◌≡◌, Bool, true, false, ◌&&◌, ◌||◌, not, Option, none, some, List, [], ◌∷◌, ◌==◌,
  if◌then◌else◌, Ptr, Text, ℤ, pos, negsuc, length,
}
use fxlang.Cap.Path.{path_allowed}
use fxlang.Cap.{Runtime, RootCap, as_fs, as_out, clear_last_text}

unfoldable pub fscap_path_allowed : Option RootCap → Option Text → Bool
fscap_path_allowed none path = false
fscap_path_allowed (some c) path = path_allowed c.root c.live path

unfoldable pub outcap_path_allowed : Option RootCap → Option Text → Bool
outcap_path_allowed none path = false
outcap_path_allowed (some c) path = path_allowed c.root c.live path

-- What the C library answers to the calls of `read_all`, and the bytes that `fread` gets.
pub record Reading : Type 0 where
  pub opens : Bool
  pub seeks_end : Bool
  pub size : ℤ
  pub seeks_back : Bool
  pub allocates : Bool
  pub bytes : Text

-- The buffer, `none` for NULL.
unfoldable pub read_all : Reading → Option Text
read_all f = if not f.opens || not f.seeks_end then none else elim f.size [
  | negsuc _ ↦ none
  | pos sz ↦ if not f.seeks_back || not f.allocates then none else some f.bytes
]

abbrev pub cap_ok : ℕ
cap_ok = 0

abbrev pub cap_io_err : ℕ
cap_io_err = 2

abbrev pub cap_denied : ℕ
cap_denied = 5

-- The status, the paths that were handed to `fopen`, and the new runtime.
unfoldable pub io_cap_read_file : Runtime → Ptr → Option Text → Reading → ℕ × List Text × Runtime
unfolding fscap_path_allowed read_all
io_cap_read_file rt handle none f = (cap_denied, [], clear_last_text rt)
io_cap_read_file rt handle (some path) f =
    if not (fscap_path_allowed (as_fs (rt.caps handle)) (some path))
    then (cap_denied, [], clear_last_text rt)
    else elim (read_all f) [
      | none ↦ (cap_io_err, path ∷ [], clear_last_text rt)
      | some bytes ↦ (cap_ok, path ∷ [], record rt { last_text = some bytes })
    ]

-- A C string ends at the first NUL of the buffer.
unfoldable pub c_string : Text → Text
c_string [] = []
c_string (c ∷ s) = if c == 0 then [] else c ∷ c_string s

unfoldable pub io_cap_last_text : Runtime → Text
unfolding c_string
io_cap_last_text rt = elim rt.last_text [ none ↦ [] | some s ↦ c_string s ]

-- What the C library answers to the calls of `fx_io_cap_write_file`.
pub record Writing : Type 0 where
  pub opens : Bool
  pub wrote : ℕ
  pub closes : Bool

-- The status, the paths handed to `fopen`, and the bytes handed to `fwrite`.
unfoldable pub io_cap_write_file :
    Runtime → Ptr → Option Text → (content : Option Text) → Writing → ℕ × List Text × Text
unfolding outcap_path_allowed
io_cap_write_file rt handle none content w = (cap_denied, [], [])
io_cap_write_file rt handle (some path) content w =
    if not (outcap_path_allowed (as_out (rt.caps handle)) (some path))
    then (cap_denied, [], [])
    else let text : Text = elim content [ none ↦ [] | some s ↦ s ] in
      if not w.opens
      then (cap_io_err, path ∷ [], [])
      else if not w.closes || not (w.wrote == length text)
      then (cap_io_err, path ∷ [], text)
      else (cap_ok, path ∷ [], text)
