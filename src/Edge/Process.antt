-- ===== src/Edge/Process.antt =====
-- The processes and paths of the host (host/process/fx_process.c), as it is compiled for POSIX; Windows has
-- the functions that differ there. The
-- system's calls and the library that copies strings are arguments: `dup` is `core_str_dup`, with
-- `none` for a status other than CORE_OK and for no string.
pub mod Slices
pub mod Windows
use fxlang.Prelude.{
  ℕ, ◌+◌, ◌-◌, Bool, true, false, not, ◌||◌, Option, none, some, List, [], ◌∷◌, ltb, leb, ◌==◌,
  if◌then◌else◌, ℤ, pos, negsuc, pos_part, ltb_ℤ, take, drop, length, Text, codes, is_blank, to_i32,
}

-- What `stat` finds at a path.
pub data Stat : Type 0 where
  no_stat : Stat
  regular : Stat
  other_mode : Stat

abbrev pub is_regular : Stat → ℕ
is_regular regular = 1
is_regular no_stat = 0
is_regular other_mode = 0

abbrev pub text_of : Option Text → Text
text_of none = []
text_of (some s) = s

unfoldable pub fx_proc_file_exists : (stat : Text → Stat) → (path : Option Text) → ℕ
fx_proc_file_exists stat path = if is_blank path then 0 else is_regular (stat (text_of path))

-- `cwd` is what `getcwd` writes to a buffer of that many bytes; the flag says whether the buffer is
-- not NULL.
unfoldable pub fx_proc_getcwd :
    (cwd : ℕ → Option Text) → (has_buf : Bool) → (buflen : ℕ) → Option Text
fx_proc_getcwd cwd has_buf buflen = if not has_buf || (buflen == 0) then none else cwd buflen

-- `chdir` says whether it succeeds.
unfoldable pub fx_proc_chdir : (chdir : Text → Bool) → (path : Option Text) → ℕ
fx_proc_chdir chdir path = if is_blank path then 1 else if chdir (text_of path) then 0 else 1

-- How `system` ends: -1, an exit with a code (WIFEXITED and WEXITSTATUS), or another end.
pub data Ended : Type 0 where
  not_run : Ended
  exited : (code : ℕ) → Ended
  killed : Ended

abbrev pub code_of : Ended → ℕ
code_of not_run = 127
code_of (exited code) = code
code_of killed = 1

unfoldable pub fx_proc_run_cmd : (system : Text → Ended) → (cmd : Option Text) → ℕ
fx_proc_run_cmd system cmd = if is_blank cmd then 1 else code_of (system (text_of cmd))

-- How `mkdir` ends, with EEXIST apart.
pub data Made : Type 0 where
  created : Made
  existed : Made
  failed : Made

abbrev pub is_there : Made → ℕ
is_there created = 0
is_there existed = 0
is_there failed = 1

unfoldable pub fx_proc_ensure_dir : (mkdir : Text → Made) → (path : Option Text) → ℕ
fx_proc_ensure_dir mkdir path = if is_blank path then 1 else is_there (mkdir (text_of path))

-- `core_str_view_from_parts(s + at, len)`, whose bytes are read by the copy; `none` where they are not
-- all in the string.
abbrev view : Text → (at len : ℕ) → Option Text
view s at len = if leb (at + len) (length s) then some (take len (drop at s)) else none

abbrev copied : (dup : Text → Option Text) → Option Text → Option Text
copied dup none = none
copied dup (some t) = some (text_of (dup t))

-- `none` for a read outside of the string. `(int32_t)slen` is computed where it is less than `hi`.
unfoldable pub fx_proc_slice : (dup : Text → Option Text) → Option Text → (lo hi : ℤ) → Option Text
fx_proc_slice dup none lo hi = some []
fx_proc_slice dup (some s) lo hi =
    if ltb_ℤ lo (pos 0) || ltb_ℤ hi lo
    then some []
    else let slen = length s in
      let last = if ltb slen (pos_part hi) then to_i32 (pos slen) else hi in
      if ltb slen (pos_part lo) || (pos_part lo == pos_part last)
      then some []
      else copied dup (view s (pos_part lo) (pos_part last - pos_part lo))

-- `print` is what `snprintf` writes for "%d", `none` where it fails.
unfoldable pub fx_proc_i32_dec : (print : ℤ → Option Text) → (dup : Text → Option Text) → ℤ → Text
fx_proc_i32_dec print dup n = elim (print n) [
  | none ↦ codes "0"
  | some digits ↦ elim (dup digits) [ none ↦ codes "0" | some out ↦ out ]
]

unfoldable pub fx_proc_getcwd_alloc : (cwd : ℕ → Option Text) → (dup : Text → Option Text) → Text
unfolding fx_proc_getcwd
fx_proc_getcwd_alloc cwd dup = elim (fx_proc_getcwd cwd true 4096) [
  | none ↦ []
  | some path ↦ text_of (dup path)
]
