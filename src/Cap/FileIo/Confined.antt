-- ===== src/Cap/FileIo/Confined.antt =====
-- Which files the two calls touch.
use fxlang.Prelude.{
  ◌≡◌, ◌≢◌, ◌⊎◌, inl, inr, true, Option, none, some, List, [], ◌∷◌, arith, Bool-cases, Ptr, Text,
  All,
}
use fxlang.Cap.Path.{path_allowed}
use fxlang.Cap.Path.Confined.{Platform, Plain, path_allowed-Below, Below, components, dotdot}
use fxlang.Cap.{Runtime, RootCap, as_fs, as_out}
use fxlang.Cap.FileIo.{Reading, io_cap_read_file, cap_denied, Writing, io_cap_write_file}

-- Nothing but the path is opened, under a live capability, and it lies below the root.
abbrev pub OpensBelow : Platform → RootCap → Text → List Text → Type 0
OpensBelow p c path opened =
    (opened ≡ path ∷ [])
    × (c.live ≡ true)
    × (path ≢ c.root)
    × All (λ w. w ≢ dotdot) (components p path)
    × Below p c.root path

-- A read on the handle of an FsCap with a non-empty root: denied, with the text of the last read gone,
-- or nothing is opened but the path, below the root.
io_cap_read_file_confined :
    (p : Platform) (rt : Runtime) (handle : Ptr) (path : Text) (f : Reading) (c : RootCap)
    → Plain p path
    → as_fs (rt.caps handle) ≡ some c
    → c.root ≢ []
    → let (status, opened, rt') = io_cap_read_file rt handle (some path) f in
      ((status ≡ cap_denied) × (opened ≡ []) × (rt'.last_text ≡ none)) ⊎ OpensBelow p c path opened
unfolding io_cap_read_file
io_cap_read_file_confined p rt handle path f c clean e ne =
    elim (Bool-cases (path_allowed c.root c.live (some path))) [
      | inl h ↦
          let (alive, apart, _, _, plain, below) =
            path_allowed-Below p c.root path c.live clean ne h in
          inr (ground arith, alive, apart, plain, below)
      | inr h ↦ inl (ground arith)
    ]

-- A write on the handle of an OutCap with a non-empty root: denied, with nothing written, or nothing is
-- opened but the path, below the root.
io_cap_write_file_confined :
    (p : Platform) (rt : Runtime) (handle : Ptr) (path : Text) (content : Option Text) (w : Writing)
    (c : RootCap)
    → Plain p path
    → as_out (rt.caps handle) ≡ some c
    → c.root ≢ []
    → let (status, opened, written) = io_cap_write_file rt handle (some path) content w in
      ((status ≡ cap_denied) × (opened ≡ []) × (written ≡ [])) ⊎ OpensBelow p c path opened
unfolding io_cap_write_file
io_cap_write_file_confined p rt handle path content w c clean e ne =
    elim (Bool-cases (path_allowed c.root c.live (some path))) [
      | inl h ↦
          let (alive, apart, _, _, plain, below) =
            path_allowed-Below p c.root path c.live clean ne h in
          inr (ground arith, alive, apart, plain, below)
      | inr h ↦ inl (ground arith)
    ]

-- For a path that on POSIX has no backslash: on the handle of an FsCap with a non-empty root
-- `fx_io_cap_read_file`, and on the handle of an OutCap with a non-empty root
-- `fx_io_cap_write_file`, opens no file but the one asked for, and that only if the capability is
-- live, the path is not the root itself, its components are the root's and at least one more (an
-- empty one where the path ends in a separator), and none is "..". Otherwise the answer is 5 and
-- nothing is opened; after the read the text of the last read is gone, and the write writes nothing.
pub files_confined :
    (p : Platform) (rt : Runtime) (fs out : Ptr) (path : Text) (f : Reading) (content : Option Text)
    (w : Writing) (c d : RootCap)
    → Plain p path
    → as_fs (rt.caps fs) ≡ some c
    → c.root ≢ []
    → as_out (rt.caps out) ≡ some d
    → d.root ≢ []
    → let (status, opened, rt') = io_cap_read_file rt fs (some path) f in
      let (status', opened', written) = io_cap_write_file rt out (some path) content w in
      (((status ≡ cap_denied) × (opened ≡ []) × (rt'.last_text ≡ none))
        ⊎ OpensBelow p c path opened)
      × (((status' ≡ cap_denied) × (opened' ≡ []) × (written ≡ [])) ⊎ OpensBelow p d path opened')
files_confined p rt fs out path f content w c d clean e ne e' ne' = (
  io_cap_read_file_confined p rt fs path f c clean e ne,
  io_cap_write_file_confined p rt out path content w d clean e' ne',
)
