-- ===== src/Edge/Process/Windows.antt =====
-- The functions of host/process/fx_process.c that are compiled differently for Windows.
use fxlang.Prelude.{
  ℕ, ◌≡◌, inl, inr, refl, Bool, not, ◌&&◌, Option, none, some, ◌==◌, ◌/◌, ◌%◌, if◌then◌else◌, ℤ,
  pos, negsuc, eq_ℤ, Text, is_blank, Bool-cases, arith,
}
use fxlang.Edge.Process.{
  Stat, no_stat, regular, other_mode, Ended, not_run, exited, code_of, is_there, is_regular, Made,
  created, existed, failed, text_of, fx_proc_file_exists, fx_proc_run_cmd, fx_proc_ensure_dir,
}

abbrev invalid_file_attributes : ℕ
invalid_file_attributes = 0xFFFFFFFF

-- FILE_ATTRIBUTE_DIRECTORY is 0x10.
abbrev is_directory : (attributes : ℕ) → Bool
is_directory a = (a / 16) % 2 == 1

-- `attributes` is `GetFileAttributesA`.
unfoldable file_exists_windows : (attributes : Text → ℕ) → (path : Option Text) → ℕ
file_exists_windows attributes path =
    if is_blank path
    then 0
    else let a = attributes (text_of path) in
      if not (a == invalid_file_attributes) && not (is_directory a) then 1 else 0

-- `system` gives the code with which the command ends, or -1.
unfoldable run_cmd_windows : (system : Text → ℤ) → (cmd : Option Text) → ℤ
run_cmd_windows system cmd =
    if is_blank cmd
    then pos 1
    else let st = system (text_of cmd) in if eq_ℤ st (negsuc 0) then pos 127 else st

-- `create` is `CreateDirectoryA`: `none` if it succeeds, or what `GetLastError` says then.
-- ERROR_ALREADY_EXISTS is 183.
unfoldable ensure_dir_windows : (create : Text → Option ℕ) → (path : Option Text) → ℕ
ensure_dir_windows create path =
    if is_blank path
    then 1
    else elim (create (text_of path)) [ none ↦ 0 | some error ↦ if error == 183 then 0 else 1 ]

-- What the two systems say of one file.
abbrev IsSameFile : Stat → (attributes : ℕ) → Type 0
IsSameFile no_stat a = a ≡ invalid_file_attributes
IsSameFile regular a = (a / 16) % 2 ≡ 0
IsSameFile other_mode a = (a / 16) % 2 ≡ 1

-- What the two systems say of the end of one command that was not killed.
abbrev IsSameEnd : (posix : Option ℕ) → (windows : ℤ) → Type 0
IsSameEnd none st = st ≡ negsuc 0
IsSameEnd (some code) st = st ≡ pos code

abbrev ended : Option ℕ → Ended
ended none = not_run
ended (some code) = exited code

attributes_agree :
    (s : Stat) (a : ℕ)
    → IsSameFile s a
    → (if not (a == invalid_file_attributes) && not (is_directory a) then 1 else 0) ≡ is_regular s
attributes_agree no_stat a same = ground (arith, same)
attributes_agree regular a same = ground (arith, same)
attributes_agree other_mode a same = ground (arith, same)

file_exists_agree :
    (stat : Text → Stat) (attributes : Text → ℕ) (path : Option Text)
    → IsSameFile (stat (text_of path)) (attributes (text_of path))
    → file_exists_windows attributes path ≡ fx_proc_file_exists stat path
unfolding file_exists_windows fx_proc_file_exists
file_exists_agree stat attributes path same = elim (Bool-cases (is_blank path)) [
  | inl blank ↦ rw blank refl
  | inr named ↦ rw named (attributes_agree (stat (text_of path)) (attributes (text_of path)) same)
]

code_agrees :
    (end : Option ℕ) (st : ℤ)
    → IsSameEnd end st
    → (if eq_ℤ st (negsuc 0) then pos 127 else st) ≡ pos (code_of (ended end))
code_agrees none st same = rw same refl
code_agrees (some code) st same = rw same (ground arith)

run_cmd_agree :
    (posix : Text → Option ℕ) (windows : Text → ℤ) (cmd : Option Text)
    → IsSameEnd (posix (text_of cmd)) (windows (text_of cmd))
    → run_cmd_windows windows cmd ≡ pos (fx_proc_run_cmd (λ t. ended (posix t)) cmd)
unfolding run_cmd_windows fx_proc_run_cmd
run_cmd_agree posix windows cmd same = elim (Bool-cases (is_blank cmd)) [
  | inl blank ↦ rw blank refl
  | inr named ↦ rw named (code_agrees (posix (text_of cmd)) (windows (text_of cmd)) same)
]

-- What the two systems say of the directory that was to be made.
abbrev made : Option ℕ → Made
made none = created
made (some error) = if error == 183 then existed else failed

made_agree :
    (answer : Option ℕ)
    → elim answer [ none ↦ 0 | some error ↦ if error == 183 then 0 else 1 ] ≡ is_there (made answer)
made_agree none = refl
made_agree (some error) = ground arith

ensure_dir_agree :
    (create : Text → Option ℕ) (path : Option Text)
    → ensure_dir_windows create path ≡ fx_proc_ensure_dir (λ t. made (create t)) path
unfolding ensure_dir_windows fx_proc_ensure_dir
ensure_dir_agree create path = elim (Bool-cases (is_blank path)) [
  | inl blank ↦ rw blank refl
  | inr named ↦ rw named (made_agree (create (text_of path)))
]
