-- ===== src/Programs/Guest.antt =====
-- The host of a guest session (scaffolds/guest/host.c). What the guest's library does is an argument:
-- it holds nothing but the FsCap, so it can only ask for reads with it.
pub mod Reads
pub mod Ends
use fxlang.Prelude.{
  ℕ, Option, none, some, List, [], ◌++◌, ◌==◌, if◌then◌else◌, Text, codes, Ptr, ℤ, pos,
}
use fxlang.Cap.{Runtime}
use fxlang.Cap.Mint.{guest_mint_fscap}
use fxlang.Cap.Session.{guest_begin, guest_end}
use fxlang.Cap.FileIo.{Reading, io_cap_read_file, io_cap_last_text}
use fxlang.Edge.Cli.{Result, fx_cli_fail, return_result}

-- A run of `fx_guest_lib_run`: each read, with what the C library answers to it, and then the rest
-- of the run, which depends on the status and on the text; at the end the result.
pub data Activity : Type 0 where
  done : Result → Activity
  reads : (path : Option Text) → Reading → (ℕ → Text → Activity) → Activity

-- The paths that the run opens, its result, and the state it leaves.
unfoldable pub perform : (handle : Ptr) → Activity → Runtime → List Text × Result × Runtime
perform handle (done r) rt = ([], r, rt)
perform handle (reads path f rest) rt =
    let (status, opened, rt') = io_cap_read_file rt handle path f in
    let (more, r, left) = perform handle (rest status (io_cap_last_text rt')) rt' in
    (opened ++ more, r, left)

-- The state in which a program starts: no session, no capability, no text.
abbrev pub at_start : Runtime
at_start = record { guests = λ x. none; caps = λ q. none; last_text = none }

-- What is seen of a program that has ended.
pub record Exit : Type 0 where
  pub stderr : Text
  pub code : ℤ
  pub opened : List Text
  pub left : Runtime

abbrev pub exit : Text × ℤ → List Text → Runtime → Exit
exit (stderr, code) opened left = record {
  stderr = stderr;
  code = code;
  opened = opened;
  left = left;
}

-- The session has no children, so this much fuel is enough.
abbrev pub end_fuel : ℕ
end_fuel = 2

-- `fx_guest_end`, then the program's result.
abbrev pub end_with : Text × ℤ → List Text → Runtime → Ptr → Option Exit
end_with told opened rt ctx = elim (guest_end end_fuel rt ctx) [
  | none ↦ none
  | some left ↦ some (exit told opened left)
]

abbrev pub root_dir : Text
root_dir = codes "."

-- `fresh`, `arena` and `fresh_cap` are what the three calls of `calloc` return; `none` where the
-- fuel runs out.
unfoldable pub main : (decimal : ℤ → Text) → (fresh arena fresh_cap : Ptr) → Activity → Option Exit
unfolding perform
main decimal fresh arena fresh_cap activity =
    let (ctx, rt) = guest_begin at_start fresh arena (some root_dir) (pos 4096) in
    if ctx == 0
    then some (exit (fx_cli_fail (codes "guest") (codes "guest_begin failed") (pos 1)) [] rt)
    else let (fs_h, minted) = guest_mint_fscap rt ctx fresh_cap (some []) in
      if fs_h == 0
      then end_with (fx_cli_fail (codes "guest") (codes "mint_fscap failed") (pos 1)) [] minted ctx
      else let (opened, r, rt') = perform fs_h activity minted in
        end_with (return_result decimal r (codes "guest")) opened rt' ctx
