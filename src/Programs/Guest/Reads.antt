-- ===== src/Programs/Guest/Reads.antt =====
-- What a run of the guest (scaffolds/guest/host.c) with its FsCap opens and leaves as it is.
use fxlang.Prelude.{
  ◌≡◌, ◌≢◌, ◌++◌, refl, sym, ap, subst, ◌∙◌, inl, inr, Option, none, some, List, [], ◌∷◌, arith,
  Bool-cases, Text, All, Ptr,
}
use fxlang.Cap.Path.{path_allowed}
use fxlang.Cap.Path.Confined.{windows, components, dotdot, Below, path_allowed-Below_windows}
use fxlang.Cap.{Runtime, RootCap, as_fs}
use fxlang.Cap.FileIo.{Reading, io_cap_read_file, io_cap_last_text}
use fxlang.Programs.Guest.{Activity, done, reads, perform}

-- The path's components, cut at each '/' and backslash, are the root's and at least one more, and none
-- is "..".
abbrev pub Inside : Text → Text → Type 0
Inside root path = All (λ w. w ≢ dotdot) (components windows path) × Below windows root path

All-append : {A : Type 0} (P : A → Type 0) (xs ys : List A) → All P xs → All P ys → All P (xs ++ ys)
All-append P [] ys a b = b
All-append P (x ∷ xs) ys (p, a) b = (p, All-append P xs ys a b)

-- A read changes neither the sessions nor the capabilities.
abbrev pub SameCaps : Runtime → Runtime → Type 0
SameCaps rt rt' = (rt'.guests ≡ rt.guests) × (rt'.caps ≡ rt.caps)

io_cap_read_file-SameCaps :
    (rt : Runtime) (q : Ptr) (path : Option Text) (f : Reading)
    → SameCaps rt (io_cap_read_file rt q path f).2
unfolding io_cap_read_file
io_cap_read_file-SameCaps rt q none f = (refl, refl)
io_cap_read_file-SameCaps rt q (some path) f = (ground arith, ground arith)

io_cap_read_file-Inside :
    (rt : Runtime) (q : Ptr) (path : Option Text) (f : Reading) (c : RootCap)
    → as_fs (rt.caps q) ≡ some c
    → c.root ≢ []
    → All (Inside c.root) (io_cap_read_file rt q path f).1
unfolding io_cap_read_file
io_cap_read_file-Inside rt q none f c e ne = tt
io_cap_read_file-Inside rt q (some path) f c e ne =
    elim (Bool-cases (path_allowed c.root c.live (some path))) [
      | inl h ↦
          let (alive, relative, plain, below) =
            path_allowed-Below_windows c.root path c.live ne h in
          let opened : (io_cap_read_file rt q (some path) f).1 ≡ path ∷ [] = ground arith in
          subst (All (Inside c.root)) (sym opened) ((plain, below), tt)
      | inr h ↦
          let opened : (io_cap_read_file rt q (some path) f).1 ≡ [] = ground arith in
          subst (All (Inside c.root)) (sym opened) tt
    ]

pub perform-SameCaps : (q : Ptr) (a : Activity) (rt : Runtime) → SameCaps rt (perform q a rt).2
unfolding perform
perform-SameCaps q (done r) rt = (refl, refl)
perform-SameCaps q (reads path f rest) rt =
    let (status, opened, rt') = io_cap_read_file rt q path f in
    let (g, c) = io_cap_read_file-SameCaps rt q path f in
    let (g', c') = perform-SameCaps q (rest status (io_cap_last_text rt')) rt' in (g' ∙ g, c' ∙ c)

pub perform-Inside :
    (q : Ptr) (a : Activity) (rt : Runtime) (c : RootCap)
    → as_fs (rt.caps q) ≡ some c
    → c.root ≢ []
    → All (Inside c.root) (perform q a rt).0
unfolding perform
perform-Inside q (done r) rt c e ne = tt
perform-Inside q (reads path f rest) rt c e ne =
    let (status, opened, rt') = io_cap_read_file rt q path f in
    let (_, same) = io_cap_read_file-SameCaps rt q path f in
    All-append (Inside c.root) opened _ (io_cap_read_file-Inside rt q path f c e ne) (
      perform-Inside q (rest status (io_cap_last_text rt')) rt' c (ap (λ t. as_fs (t q)) same ∙ e)
        ne)
