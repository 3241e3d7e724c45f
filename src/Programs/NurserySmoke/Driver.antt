-- ===== src/Programs/NurserySmoke/Driver.antt =====
-- How the runs of examples/concur_nursery_smoke/host.c are written: a test that fails ends the run, frees its
-- nursery and prints a message.
use Prim.Native.String.{String}
use fxlang.Prelude.{ℕ, Bool, true, false, Option, none, some, List, [], ◌∷◌, Text, codes, ℤ, pos}
use fxlang.Edge.Cli.{fx_cli_fail}
use fxlang.Concur.Nursery.{Nursery, join_all, destroy}

-- What is given to one of the four runs: a nursery with its slots and lock, and the threads, counted
-- from 0 in the order of the calls.
pub record Given : Type 0 where
  pub nursery : Bool
  pub slots : Bool
  pub lock : Bool
  pub created : ℕ → Bool

-- What is seen of a run: stderr and the code, and the nurseries as they were when they were freed,
-- the last one first.
abbrev pub Seen : Type 0
Seen = (Text × ℤ) × List Nursery

abbrev pub failed : String → Text × ℤ
failed msg = fx_cli_fail (codes "concur_nursery") (codes msg) (pos 1)

abbrev pub passed : Text × ℤ
passed = ([], pos 0)

-- `fx_nursery_destroy(n)`, then the return. No other thread calls the nursery.
unfoldable pub free_and : Nursery → List Nursery → Text × ℤ → Option Seen
free_and n freed told = elim (destroy [] (λ i. []) [] n) [
  | none ↦ none
  | some left ↦ some (told, left ∷ freed)
]

-- A test that ends the run if it fails.
unfoldable pub require :
    (ok : Bool) → String → Nursery → List Nursery → (rest : Option Seen) → Option Seen
require ok msg n freed rest = elim ok [ true ↦ rest | false ↦ free_and n freed (failed msg) ]

-- The rest of a run, after a call that may not return.
unfoldable pub after : Option (ℕ × Nursery) → (ℕ → Nursery → Option Seen) → Option Seen
after result rest = elim result [ none ↦ none | some (rc, n) ↦ rest rc n ]

unfoldable pub join : Nursery → (ℕ → Nursery → Option Seen) → Option Seen
join n rest = after (join_all (λ i. []) n) rest
