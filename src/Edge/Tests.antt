-- ===== src/Edge/Tests.antt =====
-- Concrete runs of the theorems on the edge of the process (host).
use fxlang.Prelude.{
  ◌≢◌, ◌⊎◌, ℕ, ◌<◌, ◌≡◌, refl, true, some, List, [], ◌∷◌, arith, pos, codes, Text, none, text_eq,
  if◌then◌else◌, pos_part, map_option, ◌+◌, ◌*◌, ◌/◌,
}
use fxlang.Edge.Walk.{Buffer, Memory, fx_fs_list_names, fx_fs_list_ok}
use fxlang.Edge.Walk.Grow.{RefusedFor}
use fxlang.Edge.Walk.Names.{fx_fs_list_names-lines}
use fxlang.Edge.Walk.Windows.{Finder, fx_fs_list_names_windows, fx_fs_list_ok_windows}
use fxlang.Edge.Walk.Windows.Agrees.{search_for, windows_agrees}
use fxlang.Edge.Time.{fx_rand_next, fx_time_now_ms, fx_time_sleep_ms}
use fxlang.Edge.Time.Windows.{
  FileTime, fx_time_now_ms_windows, fx_time_sleep_ms_windows, clocks_agree,
}
use fxlang.Edge.Time.Rand.{fx_rand_next_distinct}
use fxlang.Edge.Process.{fx_proc_slice}
use fxlang.Edge.Process.Slices.{fx_proc_slice-slice}

abbrev memory : Memory
memory = record { grants = λ n. true; junk = λ i. 0 }

-- Before the first call there is no buffer.
abbrev unset : Buffer
unset = record { cell = λ i. 0; size = 0 }

abbrev names : List Text
names = codes "." ∷ codes "ab" ∷ codes ".." ∷ codes "c" ∷ []

fx_fs_list_names-lines_example :
    (text : Text) × (after : Buffer) × (fx_fs_list_names memory
        (some (codes "d"))
        (some names)
        unset
      ≡ some (text, after))
    × ((text ≡ codes "ab\nc\n") ⊎ ((text ≡ []) × (n : ℕ) × RefusedFor memory 6 n))
fx_fs_list_names-lines_example =
    fx_fs_list_names-lines memory (some (codes "d")) names unset refl
      (
        (λ e. omega (arith, e), tt),
        (
          (λ e. omega (arith, e), (λ e. omega (arith, e), tt)),
          ((λ e. omega (arith, e), (λ e. omega (arith, e), tt)), ((λ e. omega (arith, e), tt), tt)),
        ),
      )
      (omega arith)

fx_rand_next_distinct_example :
    (n : ℕ) × (m : ℕ) × (fx_rand_next (pos 1) ≡ pos n)
    × (fx_rand_next (pos 2147483647) ≡ pos m)
    × (n < 2147483648)
    × (m < 2147483648)
    × (n ≢ m)
fx_rand_next_distinct_example =
    fx_rand_next_distinct 1 2147483647 (omega arith) (omega arith) (omega arith) (omega arith)
      (λ e. omega (arith, e))

fx_proc_slice-slice_example :
    fx_proc_slice some (some (codes "verify")) (pos 2) (pos 90) ≡ some (codes "rify")
fx_proc_slice-slice_example =
    fx_proc_slice-slice some (some (codes "verify")) (pos 2) (pos 90) (λ t. refl) (omega arith)
      (omega arith)

-- FindFirstFileA and FindNextFileA find three entries for "d\\*", and nothing else.
abbrev find : Finder
find pattern =
    if text_eq pattern (codes "d\\*") then some (codes ".", codes ".." ∷ codes "ab" ∷ []) else none

windows_agrees_example :
    (fx_fs_list_names_windows memory (some (codes "d")) (λ i. 7) find unset
      ≡ fx_fs_list_names memory (some (codes "d")) (search_for find (codes "d")) unset)
    × (fx_fs_list_ok_windows (some (codes "d")) (λ i. 7) find
        ≡ some (fx_fs_list_ok (some (codes "d")) (search_for find (codes "d"))))
windows_agrees_example =
    windows_agrees memory (codes "d") (λ i. 7) find unset ((λ e. omega (arith, e)), tt)

-- The first day of 2000.
abbrev new_year : FileTime
new_year = record { low = 627916800; high = 29316075 }

clocks_agree_example :
    (fx_time_now_ms_windows new_year
      ≡ fx_time_now_ms (some (record { tv_sec = pos 946684800; tv_nsec = 99 })))
    × (fx_time_sleep_ms_windows (pos 1500)
        ≡ map_option
            (λ ts. pos_part ts.tv_sec * 1000 + ts.tv_nsec / 1000000)
            (fx_time_sleep_ms (pos 1500)))
clocks_agree_example =
    clocks_agree new_year (pos 946684800) 99 (pos 1500) (omega arith) (omega arith) (omega arith)
      refl
