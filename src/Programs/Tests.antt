-- ===== src/Programs/Tests.antt =====
-- Concrete runs of the theorems on the host programs.
use mathlib.Core.Option.{some-injective}
use fxlang.Cap.Path.Confined.{posix, Plain}
use fxlang.Prelude.{
  subst, arith, ℕ, ◌≡◌, refl, ◌≢◌, ◌⊎◌, true, false, none, some, List, [], ◌∷◌, Text, codes, ℤ, pos,
  eq_ℤ, All, inr, ◌==◌, if◌then◌else◌,
}
use fxlang.Cap.FileIo.{Reading, c_string}
use fxlang.Edge.Cli.{Args, Result, ok_val}
use fxlang.Concur.Nursery.{Nursery, timed_out}
use fxlang.Programs.Guest
use fxlang.Programs.Guest.{Activity, done, reads, Exit, root_dir}
use fxlang.Programs.Guest.Reads.{Inside}
use fxlang.Programs.Guest.Ends.{IsOver, guest_main_ends}
use fxlang.Programs.CapSmoke
use fxlang.Programs.CapSmoke.{file_arg}
use fxlang.Programs.CapSmoke.Confined.{
  InFixtures, Tidy, Succeeds, cap_smoke_confined, cap_smoke-Succeeds,
}
use fxlang.Programs.NurserySmoke
use fxlang.Programs.NurserySmoke.Driver.{Given, passed}
use fxlang.Programs.NurserySmoke.{Given4}
use fxlang.Programs.NurserySmoke.Calls.{Ends}
use fxlang.Programs.NurserySmoke.Ends.{nursery_smoke-Ends}
use fxlang.Programs.NurserySmoke.Passes.{nursery_smoke_passes}

abbrev readable : Reading
readable = record {
  opens = true;
  seeks_end = true;
  size = pos 2;
  seeks_back = true;
  allocates = true;
  bytes = codes "ok";
}

-- The guest asks for a file below the root and for one that is not.
abbrev curious : Activity
curious = reads (some (codes "./a")) readable (λ status text.
    reads (some (codes "b")) readable (λ status' text'. done (ok_val (pos status'))))

abbrev decimal : ℤ → Text
decimal z = codes "?"

guest_main_ends_example :
    (e : Exit) × (Guest.main decimal 1 4096 9 curious ≡ some e)
    × IsOver e.left
    × All (Inside root_dir) e.opened
guest_main_ends_example = guest_main_ends decimal 1 4096 9 curious

abbrev args : Args
args = record {
  argc = pos 2;
  argv = some (some (codes "cap_host_smoke") ∷ some (codes "fixtures/ok.txt") ∷ []);
}

abbrev run : Text → Result
run text = ok_val (pos 42)

abbrev arg : Text
arg = codes "fixtures/ok.txt"

arg-Plain : Plain posix arg
arg-Plain = omega arith

args-Plain : (path : Text) → file_arg args ≡ some path → Plain posix path
args-Plain path e = subst (Plain posix) (some-injective _ _ e) arg-Plain

cap_smoke_confined_example :
    let (told, calls, given) = CapSmoke.main args readable run in
    ((calls ≡ []) × (given ≡ none))
    ⊎ ((path : Text) × (file_arg args ≡ some path)
        × (eq_ℤ args.argc (pos 2) ≡ true)
        × InFixtures posix path
        × Tidy path calls
        × ((given ≡ none) ⊎ (given ≡ some (c_string readable.bytes))))
cap_smoke_confined_example = cap_smoke_confined posix args readable run args-Plain

cap_smoke-Succeeds_example :
    (Succeeds args readable run × ((CapSmoke.main args readable run).0 ≡ ([], pos 0)))
    ⊎ (¬ (Succeeds args readable run) × ((CapSmoke.main args readable run).0.0 ≢ []))
cap_smoke-Succeeds_example = cap_smoke-Succeeds args readable run

abbrev all_given : Given
all_given = record { nursery = true; slots = true; lock = true; created = λ i. true }

-- The second thread of the sum runs first, the task polls twice before the cancel, and the sleeping
-- task takes too long.
abbrev system : Given4
system = record {
  sum = all_given;
  small = all_given;
  big = all_given;
  cancelled = all_given;
  timed = all_given;
  swapped = true;
  early = 2;
  wait = timed_out;
}

-- The third thread of the second nursery is refused.
abbrev refusing : Given4
refusing = record system {
  big = record all_given { created = λ i. if i == 2 then false else true };
}

nursery_smoke-Ends_example : Ends (NurserySmoke.main refusing)
nursery_smoke-Ends_example = nursery_smoke-Ends refusing

nursery_smoke_passes_example :
    (left : List Nursery) × (NurserySmoke.main system ≡ some (passed, left))
nursery_smoke_passes_example = nursery_smoke_passes system given given given given given (inr refl)
  where
    given : (true ≡ true) × (true ≡ true) × (true ≡ true) × ((i : ℕ) → true ≡ true)
    given = (refl, refl, refl, (λ i. refl))
