-- ===== src/Programs/CapSmoke.antt =====
-- The host that reads a file for its guest (examples/cap_host_smoke/host.c). The guest's library is
-- an argument: a function of the bytes.
pub mod Confined
use fxlang.Prelude.{
  ◌||◌, ◌&&◌, ◌+◌, Bool, true, false, not, Option, none, some, List, [], ◌∷◌, ◌==◌, if◌then◌else◌,
  Text, char_at, starts_with, codes, ℤ, pos, negsuc, get_or, eq_ℤ,
}
use fxlang.Cap.Path.{has_dotdot, is_sep}
use fxlang.Cap.FileIo.{Reading, c_string}
use fxlang.Edge.Cli.{Result, Args, ok_val, err_val, fx_cli_usage, fx_cli_fail}

abbrev pub fixtures : Text
fixtures = codes "fixtures"

unfoldable pub path_allowed : Option Text → Bool
path_allowed none = false
path_allowed (some path) =
    if char_at path 0 == 0
    then false
    else if is_sep (char_at path 0)
    then false
    else if char_at path 1 == b':'
    then false
    else if not (starts_with path (codes "fixtures/"))
        && not (starts_with path (codes "fixtures\\"))
    then false
    else not (has_dotdot path)

-- The calls on files; `fails` is an `fopen` that returns NULL.
pub data FileCall : Type 0 where
  fails : (path : Text) → FileCall
  opens : (path : Text) → FileCall
  closes : FileCall

-- The buffer, `none` for NULL, and the calls on files.
unfoldable pub read_all : (path : Text) → Reading → Option Text × List FileCall
read_all path f =
    if not f.opens
    then (none, fails path ∷ [])
    else if not f.seeks_end
    then (none, opens path ∷ closes ∷ [])
    else elim f.size [
      | negsuc _ ↦ (none, opens path ∷ closes ∷ [])
      | pos sz ↦
          if not f.seeks_back
          then (none, opens path ∷ closes ∷ [])
          else if not f.allocates
          then (none, opens path ∷ closes ∷ [])
          else (some f.bytes, opens path ∷ closes ∷ [])
    ]

-- What is seen of the program: stderr and the code, the calls on files, and what the guest gets.
abbrev pub Seen : Type 0
Seen = (Text × ℤ) × List FileCall × Option Text

-- The exit for what the guest's library returns.
unfoldable pub judge : Result → Text × ℤ
judge (err_val e) = fx_cli_fail (codes "cap_host_smoke") (codes "guest rejected payload") e
judge (ok_val v) =
    if eq_ℤ v (pos 42)
    then ([], pos 0)
    else fx_cli_fail (codes "cap_host_smoke") (codes "unexpected score") (pos 1)

-- `argv[1]`
abbrev pub file_arg : Args → Option Text
file_arg args = elim args.argv [ none ↦ none | some argv ↦ get_or argv 1 none ]

-- The rest of `main`, from the read on. The buffer is a C string to the guest.
unfoldable pub serve_file : (file : Text) → Reading → (run : Text → Result) → Seen
unfolding read_all judge
serve_file file f run =
    let (buffer, calls) = read_all file f in
    elim buffer [
      | none ↦ (fx_cli_fail (codes "cap_host_smoke") (codes "io error") (pos 2), calls, none)
      | some bytes ↦ (judge (run (c_string bytes)), calls, some (c_string bytes))
    ]

unfoldable pub main : Args → Reading → (run : Text → Result) → Seen
unfolding path_allowed serve_file
main args f run =
    let denied = fx_cli_fail (codes "cap_host_smoke") (codes "denied (cap)") (pos 5) in
    if not (eq_ℤ args.argc (pos 2))
    then (fx_cli_usage (codes "usage: cap_host_smoke <file>"), [], none)
    else if not (path_allowed (file_arg args))
    then (denied, [], none)
    else elim (file_arg args) [ none ↦ (denied, [], none) | some file ↦ serve_file file f run ]
