-- ===== src/Programs/CapSmoke/Confined.antt =====
-- Which file the program opens, and what its guest gets.
use fxlang.Prelude.{
  ◌≡◌, ◌≢◌, ◌⊎◌, ◌++◌, refl, sym, ap, subst, ◌∙◌, inl, inr, true, false, none, some, List, [], ◌∷◌,
  arith, Bool-cases, Option-cases, Text, All, codes, char_at, starts_with, starts_with-append, drop,
  ℤ, pos, ◌&&◌, eq_ℤ, negsuc, ℕ, ◌==◌,
}
use fxlang.Cap.Path.{has_dotdot}
use fxlang.Cap.Path.Confined.{
  Platform, windows, cuts, Plain, components, components-append, components-Plain, cuts-windows,
  no_dotdot-components, components-ne-nil, push_char, dotdot,
}
use fxlang.Cap.FileIo.{Reading, c_string}
use fxlang.Edge.Cli.{Args, Result, ok_val, err_val, fx_cli_usage, fx_cli_fail}
use fxlang.Programs.CapSmoke.{
  fixtures, path_allowed, serve_file, FileCall, fails, opens, closes, read_all, judge, file_arg,
  main,
}

-- A relative path whose first component is "fixtures", with more components behind it, none of
-- them "..". The last may be empty, where the path ends in a separator.
abbrev pub InFixtures : Platform → Text → Type 0
InFixtures p path =
    (cuts p (char_at path 0) ≡ false)
    × (char_at path 1 ≢ b':')
    × All (λ w. w ≢ dotdot) (components p path)
    × ((rest : List Text) × (rest ≢ []) × (components p path ≡ fixtures ∷ rest))

-- "fixtures" and a separator, then anything.
prefix-components :
    (path : Text) (c : ℕ)
    → cuts windows c ≡ true
    → starts_with path (fixtures ++ (c ∷ [])) ≡ true
    → (rest : List Text) × (rest ≢ []) × (components windows path ≡ fixtures ∷ rest)
unfolding components push_char
prefix-components path c s h =
    let rest : Text = drop 9 path in
    (
      components windows rest,
      components-ne-nil rest,
      ap (components windows) (starts_with-append path (fixtures ++ (c ∷ [])) h)
          ∙ components-append fixtures rest c s,
    )

path_allowed_prefix :
    (path : Text)
    → path_allowed (some path) ≡ true
    → (rest : List Text) × (rest ≢ []) × (components windows path ≡ fixtures ∷ rest)
unfolding path_allowed
path_allowed_prefix path h = elim (Bool-cases (starts_with path (codes "fixtures/"))) [
  | inl e ↦ prefix-components path 47 refl e
  | inr e ↦ prefix-components path 92 refl (ground arith)
]

path_allowed-InFixtures :
    (p : Platform) (path : Text)
    → Plain p path
    → path_allowed (some path) ≡ true
    → InFixtures p path
unfolding path_allowed
path_allowed-InFixtures p path clean h =
    let plain : has_dotdot path ≡ false = ground arith in
    let relative : cuts windows (char_at path 0) ≡ false = ground arith in
    let (rest, some_rest, e) = path_allowed_prefix path h in
    let same = components-Plain p path clean in
    (
      cuts-windows p (char_at path 0) relative,
      ground arith,
      subst (All (λ w. w ≢ dotdot)) (sym same) (no_dotdot-components path plain),
      (rest, some_rest, same ∙ e),
    )

-- How the calls of `read_all` on files go: one `fopen`, and an `fclose` if it opens the file.
abbrev pub Tidy : Text → List FileCall → Type 0
Tidy path calls = (calls ≡ fails path ∷ []) ⊎ (calls ≡ opens path ∷ closes ∷ [])

read_all-Tidy : (path : Text) (f : Reading) → Tidy path (read_all path f).1
unfolding read_all
read_all-Tidy path f = elim (Bool-cases f.opens) [
  | inl e ↦ inr (ground arith)
  | inr e ↦ inl (ground arith)
]

read_all-buffer :
    (path : Text) (f : Reading)
    → ((read_all path f).0 ≡ none) ⊎ ((read_all path f).0 ≡ some f.bytes)
unfolding read_all
read_all-buffer path f = ground arith

serve_file-calls :
    (path : Text) (f : Reading) (run : Text → Result)
    → (serve_file path f run).1 ≡ (read_all path f).1
unfolding serve_file
serve_file-calls path f run = elim (read_all-buffer path f) [
  | inl e ↦ ground arith
  | inr e ↦ ground arith
]

serve_file-given :
    (path : Text) (f : Reading) (run : Text → Result)
    → ((serve_file path f run).2 ≡ none) ⊎ ((serve_file path f run).2 ≡ some (c_string f.bytes))
unfolding serve_file
serve_file-given path f run = elim (read_all-buffer path f) [
  | inl e ↦ inl (ground arith)
  | inr e ↦ inr (ground arith)
]

-- The two ways of `main`: refused before any file is touched, or on with an allowed path.
nothing_allowed : path_allowed none ≡ false
unfolding path_allowed
nothing_allowed = refl

data Ways (args : Args) (f : Reading) (run : Text → Result) : Type 0 where
  stopped :
      (told : Text × ℤ)
      → told.0 ≢ []
      → main args f run ≡ (told, [], none)
      → (eq_ℤ args.argc (pos 2) && path_allowed (file_arg args)) ≡ false
      → Ways args f run
  served :
      (path : Text)
      → eq_ℤ args.argc (pos 2) ≡ true
      → file_arg args ≡ some path
      → path_allowed (some path) ≡ true
      → main args f run ≡ serve_file path f run
      → Ways args f run

main-Ways : (args : Args) (f : Reading) (run : Text → Result) → Ways args f run
unfolding main fx_cli_usage fx_cli_fail
main-Ways args f run = elim (Bool-cases (eq_ℤ args.argc (pos 2))) [
  | inr e ↦
      stopped (fx_cli_usage (codes "usage: cap_host_smoke <file>")) (λ h. cc) (ground arith)
        (ground arith)
  | inl e ↦ elim (Bool-cases (path_allowed (file_arg args))) [
    | inr e1 ↦
        stopped (fx_cli_fail (codes "cap_host_smoke") (codes "denied (cap)") (pos 5)) (λ h. cc)
          (ground arith) (ground arith)
    | inl e1 ↦ elim (Option-cases (file_arg args)) [
      | inl e2 ↦ absurd (ground (arith, nothing_allowed))
      | inr (path, e2) ↦ served path e e2 (ground arith) (ground arith)
    ]
  ]
]

-- If the second argument has no backslash on POSIX: on every path through the program, whatever its
-- arguments, the C library's answers and the guest: either no file is touched and the guest is not
-- run, or there are two arguments, the second is a path that begins with no separator and has no colon
-- as its second byte, of which the first component is "fixtures", others follow (the last may be
-- empty) and none is "..", that file is the only one that is asked for, it is closed once if it was
-- opened, and the guest sees its bytes up to the first NUL or is not run.
pub cap_smoke_confined :
    (p : Platform) (args : Args) (f : Reading) (run : Text → Result)
    → ((path : Text) → file_arg args ≡ some path → Plain p path)
    → let (told, calls, given) = main args f run in
      ((calls ≡ []) × (given ≡ none))
      ⊎ ((path : Text) × (file_arg args ≡ some path)
          × (eq_ℤ args.argc (pos 2) ≡ true)
          × InFixtures p path
          × Tidy path calls
          × ((given ≡ none) ⊎ (given ≡ some (c_string f.bytes))))
unfolding main
cap_smoke_confined p args f run clean = elim (main-Ways args f run) [
  | stopped told _ e _ ↦ inl (ap (λ x. x.1) e, ap (λ x. x.2) e)
  | served path argc file ok e ↦ inr (
    path,
    file,
    argc,
    path_allowed-InFixtures p path (clean path file) ok,
    subst (Tidy path) (sym (ap (λ x. x.1) e ∙ serve_file-calls path f run)) (read_all-Tidy path f),
    subst (λ g. (g ≡ none) ⊎ (g ≡ some (c_string f.bytes))) (sym (ap (λ x. x.2) e))
        (serve_file-given path f run),
  )
]

-- Only the score 42 passes in silence, and with code 0.
judge-Silent :
    (r : Result)
    → ((r ≡ ok_val (pos 42)) × (judge r ≡ ([], pos 0)))
      ⊎ ((r ≢ ok_val (pos 42)) × ((judge r).0 ≢ []))
unfolding judge fx_cli_fail
judge-Silent (err_val e) = inr ((λ h. cc), (λ h. cc))
judge-Silent (ok_val (negsuc n)) = inr ((λ h. cc), (λ h. ground arith))
judge-Silent (ok_val (pos n)) = elim (Bool-cases (n == 42)) [
  | inl e ↦ inl (ap (λ k. ok_val (pos k)) (ground arith), ground arith)
  | inr e ↦ inr ((λ h. ground arith), (λ h. ground arith))
]

-- What the guest has to be asked, and to answer.
abbrev pub Succeeds : Args → Reading → (Text → Result) → Type 0
Succeeds args f run =
    (path : Text) × (eq_ℤ args.argc (pos 2) ≡ true)
    × (file_arg args ≡ some path)
    × (path_allowed (some path) ≡ true)
    × ((read_all path f).0 ≡ some f.bytes)
    × (run (c_string f.bytes) ≡ ok_val (pos 42))

serve_file-Silent :
    (path : Text) (f : Reading) (run : Text → Result)
    → (((read_all path f).0 ≡ some f.bytes)
        × (run (c_string f.bytes) ≡ ok_val (pos 42))
        × ((serve_file path f run).0 ≡ ([], pos 0)))
      ⊎ (¬ (((read_all path f).0 ≡ some f.bytes) × (run (c_string f.bytes) ≡ ok_val (pos 42)))
          × ((serve_file path f run).0.0 ≢ []))
unfolding serve_file fx_cli_fail
serve_file-Silent path f run = elim (read_all-buffer path f) [
  | inl e ↦ inr ((λ h. ground (arith, h.0)), (λ h. ground arith))
  | inr e ↦ elim (judge-Silent (run (c_string f.bytes))) [
    | inl (r, silent) ↦ inl (e, r, ground arith)
    | inr (r, loud) ↦ inr ((λ h. r h.1), (λ h. loud (ground arith)))
  ]
]

-- The program ends in silence with code 0 if there are two arguments, the second is a path that its
-- rule allows, the C library reads the file, and the guest scores the bytes up to the first NUL 42.
-- If any of this fails, it prints a message to stderr.
pub cap_smoke-Succeeds :
    (args : Args) (f : Reading) (run : Text → Result)
    → (Succeeds args f run × ((main args f run).0 ≡ ([], pos 0)))
      ⊎ (¬ (Succeeds args f run) × ((main args f run).0.0 ≢ []))
cap_smoke-Succeeds args f run = elim (main-Ways args f run) [
  | stopped told loud e refused ↦
      inr
        ((λ (path, argc, file, ok, _, _). ground arith), (λ h. loud (ap (λ x. x.0.0) (sym e) ∙ h)))
  | served path argc file ok e ↦ elim (serve_file-Silent path f run) [
    | inl (buffer, score, silent) ↦
        inl ((path, argc, file, ok, buffer, score), ap (λ x. x.0) e ∙ silent)
    | inr (lacks, loud) ↦ inr (
      (λ (path', _, file', _, read, score). lacks (ground arith)),
      (λ h. loud (ap (λ x. x.0.0) (sym e) ∙ h)),
    )
  ]
]
