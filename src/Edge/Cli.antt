-- ===== src/Edge/Cli.antt =====
-- The command line (host/cli/fx_cli_argv.c and fx_cli_host.h).
use fxlang.Prelude.{
  ◌||◌, Option, none, some, List, [], ◌++◌, if◌then◌else◌, ℤ, pos, pos_part, ltb_ℤ, leb_ℤ, get_or,
  Text, codes,
}

-- `fx_cli_g_argc` and `fx_cli_g_argv`; an element of argv may be NULL, and argv too.
pub record Args : Type 0 where
  pub argc : ℤ
  pub argv : Option (List (Option Text))

-- Before `fx_cli_set_args`.
abbrev pub no_args : Args
no_args = record { argc = pos 0; argv = none }

unfoldable pub fx_cli_set_args : ℤ → Option (List (Option Text)) → Args → Args
fx_cli_set_args argc argv old = record { argc = argc; argv = argv }

unfoldable pub fx_cli_argc : Args → ℤ
fx_cli_argc args = args.argc

-- `argv[i]` is in bounds where argv has argc elements.
unfoldable pub fx_cli_arg : ℤ → Args → Text
fx_cli_arg i args = elim args.argv [
  | none ↦ []
  | some argv ↦
      if ltb_ℤ i (pos 0) || leb_ℤ args.argc i
      then []
      else elim (get_or argv (pos_part i) none) [ none ↦ [] | some text ↦ text ]
]

-- What is written to stderr, and the code that is returned.
unfoldable pub fx_cli_usage : (usage_line : Text) → Text × ℤ
fx_cli_usage usage_line = (usage_line ++ codes "\n", pos 1)

unfoldable pub fx_cli_fail : (tool msg : Text) → (code : ℤ) → Text × ℤ
fx_cli_fail tool msg code = (tool ++ (codes ": " ++ (msg ++ codes "\n")), code)

-- The result of a program: FX_RESULT_TAG_OK and the other tag.
pub data Result : Type 0 where
  ok_val : ℤ → Result
  err_val : ℤ → Result

-- `decimal` is what "%d" prints.
unfoldable pub return_result : (decimal : ℤ → Text) → Result → (tool : Text) → Text × ℤ
return_result decimal (ok_val v) tool = ([], v)
return_result decimal (err_val e) tool =
    (tool ++ (codes ": error " ++ (decimal e ++ codes "\n")), e)
