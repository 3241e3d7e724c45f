-- ===== src/Cap/Tests.antt =====
-- Concrete runs of the theorems on the cap runtime (host/cap).
pub mod Budgets
pub mod Probes
use fxlang.Prelude.{
  ℕ, zero, suc, inl, inr, ◌+◌, ◌≡◌, refl, ◌≢◌, ◌⊎◌, true, false, none, some, List, [], ◌∷◌, arith,
  ◌==◌, ◌++◌, Ptr, codes, update, pos, if◌then◌else◌, ◌≤ℤ◌, All, char_at,
}
use fxlang.Cap.{Cap, NetCap, Guest, Runtime, as_net}
use fxlang.Cap.Session.{
  guest_begin, guest_begin_nested, new_guest, guest_end, tear_down, unlink_from_parent,
}
use fxlang.Cap.Invariant.{live_of, is_live_cap, IsTree, IsOwned, IsValid}
use fxlang.Cap.Invariant.Under.{Under, here, up}
use fxlang.Cap.Mint.{
  guest_mint_fscap, guest_mint_alloccap, guest_mint_fuelcap, guest_mint_netcap,
  mint_root_or_default, fscap_mint,
}
use fxlang.Cap.Budget.{fuelcap_burn, alloccap_alloc, guest_bump_alloc}
use fxlang.Cap.Path.{has_dotdot, boundary_ok, path_allowed, mint_root, root_size}
use fxlang.Cap.Path.Confined.{posix, cuts, components, dotdot, Below, path_allowed-Below}
use fxlang.Cap.Path.Roots.{mint_root_barred, path_allowed_complete, path_allowed_beside}
use fxlang.Cap.Budget.{guest_alloc}
use fxlang.Cap.Budget.Arena.{HasArena, Stacked, grants, guest_alloc_lem, grants-Stacked}
use fxlang.Cap.Budget.Spending.{
  spend, burn, budget_of, units_of, spend_conserves, burn_conserves_all,
}
use fxlang.Cap.Net.{netcap_allows, netcap_dial, Attempt, no_socket, unreachable, connected}
use fxlang.Cap.Net.Dial.{netcap_allows_lem, netcap_dial_lem, netcap_dial_denied}
use fxlang.Cap.FileIo.{Reading, Writing, io_cap_read_file, io_cap_write_file, cap_denied}
use fxlang.Cap.Denied.{Denies, guest_end-Denies}
use fxlang.Cap.Invariant.Steps.{IsSound}
use fxlang.Cap.Requests.{
  Request, begin, begin_nested, mint_fs, mint_alloc, mint_fuel, mint_net, serve_all,
  serve_all-IsSound,
}
use fxlang.Cap.End.{guest_end_returns, guest_end_exact, Bounded}

-- Session 1, session 2 nested under it, and an FsCap at 3 that session 2 minted.
abbrev outer : Guest
outer = record (new_guest (codes "data") 4096 1024 0) { children = 2 ∷ [] }

abbrev inner : Guest
inner = record (new_guest (codes "data/in") 8192 1024 1) { fs_caps = 3 ∷ [] }

abbrev fs_cap : Cap
fs_cap = Cap.fs (record { root = codes "data/in"; live = true })

abbrev two : Runtime
two = record {
  guests = update (update (λ p. none) 1 (some outer)) 2 (some inner);
  caps = update (λ p. none) 3 (some fs_cap);
  last_text = none;
}

abbrev two_depth : Ptr → ℕ
two_depth p = if p == 2 then 1 else 0

abbrev two_owner : Ptr → Ptr
two_owner q = 2

two-IsTree : IsTree two_depth two.guests
two-IsTree = record {
  null = refl;
  child = λ p c h. ground arith;
  up = λ p h. ground arith;
  distinct = λ p. ground arith;
  few = λ p. ground arith;
  dead = λ p h. ground arith;
}

two-IsOwned : IsOwned two_owner two.guests two.caps
two-IsOwned = record {
  null = refl;
  held = λ p q h. ground arith;
  backed = λ q ctx budget h. ground arith;
}

two-IsValid : IsValid two_depth two_owner two
two-IsValid = record { tree = two-IsTree; owning = two-IsOwned }

two-Bounded : Bounded two_depth two_owner 1 two
two-Bounded x h = ground arith

-- The state after the outer session ends.
abbrev ended : Runtime
ended = elim (guest_end 20 two 1) [ none ↦ two | some rt ↦ rt ]

two-ended : guest_end 20 two 1 ≡ some ended
unfolding guest_end tear_down unlink_from_parent
two-ended = refl

guest_end_returns_example :
    (rt : Runtime) × (guest_end 20 two 1 ≡ some rt)
    × IsValid two_depth two_owner rt
    × (live_of (rt.guests 1) ≡ false)
guest_end_returns_example =
    guest_end_returns two_depth two_owner 20 1 two 1 two-IsValid two-Bounded refl (omega arith)

guest_end_exact_example :
    (((live_of (ended.guests 2) ≡ false) × Under two.guests 1 2)
      ⊎ ((live_of (ended.guests 2) ≡ true) × ¬ Under two.guests 1 2))
    × (((is_live_cap (ended.caps 3) ≡ false) × Under two.guests 1 2)
        ⊎ ((is_live_cap (ended.caps 3) ≡ true) × ¬ Under two.guests 1 2))
guest_end_exact_example =
    guest_end_exact two_depth two_owner 20 1 two 1 two-IsValid two-Bounded refl (omega arith) ended
      two-ended 2 2 3 refl refl refl

guest_end-Denies_example : Denies ended 3
guest_end-Denies_example =
    guest_end-Denies two_depth two_owner 20 1 two 1 two-IsValid two-Bounded refl (omega arith) ended
      two-ended 2 3 refl (up (omega arith) here) refl

-- A session, one nested under it, a capability of each kind, and a use of the budgets.
abbrev requests : List Request
requests =
    begin 4 4096 (some (codes "data")) (pos 0)
    ∷ begin_nested 4 5 8192 none (pos 256)
    ∷ mint_fs 5 6 none
    ∷ mint_alloc 5 7 (pos 64)
    ∷ mint_fuel 4 8 (pos 3)
    ∷ mint_net 4 9 (some (codes "localhost")) (pos 1) (pos 80)
    ∷ Request.alloc 7 (pos 24)
    ∷ Request.burn 8 (pos 2)
    ∷ Request.end_session 20 4
    ∷ []

abbrev nothing : Runtime
nothing = record { guests = λ p. none; caps = λ p. none; last_text = none }

nothing-IsSound : IsSound nothing
nothing-IsSound = (
  (λ p. 0),
  (λ q. 0),
  record {
    tree = record {
      null = refl;
      child = λ p c h. cc;
      up = λ p h. absurd (h refl);
      distinct = λ p. ground arith;
      few = λ p. omega arith;
      dead = λ p h. (refl, refl);
    };
    owning = record { null = refl; held = λ p q h. cc; backed = λ q ctx budget h. cc };
  },
)

path_allowed-Below_example :
    (true ≡ true)
    × (codes "data/a.txt" ≢ codes "data")
    × (cuts posix (char_at (codes "data/a.txt") 0) ≡ false)
    × (char_at (codes "data/a.txt") 1 ≢ b':')
    × All (λ w. w ≢ dotdot) (components posix (codes "data/a.txt"))
    × Below posix (codes "data") (codes "data/a.txt")
unfolding path_allowed has_dotdot boundary_ok
path_allowed-Below_example =
    path_allowed-Below posix (codes "data") (codes "data/a.txt") true (omega arith) (λ e. cc) refl

-- No two dots in a row, by recursion on the text.
abbrev Lone : List ℕ → Type 0
Lone [] = Unit
Lone (c ∷ s) = ((c ≢ b'.') ⊎ (char_at s 0 ≢ b'.')) × Lone s

Lone-apart : (s : List ℕ) → Lone s → (i : ℕ) → char_at s i ≡ b'.' → char_at s (suc i) ≢ b'.'
Lone-apart [] h i e e' = absurd (omega (arith, e))
Lone-apart (c ∷ s) (inl ne, h) zero e e' = ne e
Lone-apart (c ∷ s) (inr ne, h) zero e e' = ne e'
Lone-apart (c ∷ s) h (suc i) e e' = Lone-apart s h.1 i e e'

lone_dot :
    (i : ℕ) → char_at (codes "data/a.txt") i ≡ b'.' → char_at (codes "data/a.txt") (suc i) ≢ b'.'
lone_dot = Lone-apart (codes "data/a.txt") (omega arith)

no_dot : (i : ℕ) → char_at (codes "data\\a") i ≡ b'.' → char_at (codes "data\\a") (suc i) ≢ b'.'
no_dot = Lone-apart (codes "data\\a") (omega arith)

path_allowed_complete_example : path_allowed (codes "data") true (some (codes "data/a.txt")) ≡ true
path_allowed_complete_example =
    path_allowed_complete b'd' b'/' (codes "ata") (codes "a.txt") (λ e. omega (arith, e))
      (λ e. omega (arith, e)) (λ e. omega (arith, e)) (λ e. omega (arith, e)) (inl refl) lone_dot

path_allowed_beside_example :
    (path_allowed (codes "data") true (some (codes "data\\a")) ≡ true)
    × (components posix (codes "data\\a") ≡ codes "data\\a" ∷ [])
path_allowed_beside_example =
    path_allowed_beside b'd' (codes "ata") (codes "a") (λ e. omega (arith, e))
      (λ e. omega (arith, e)) (λ e. omega (arith, e)) (omega arith) (omega arith) no_dot

mint_root_barred_example :
    (mint_root root_size (some (codes "/srv")) ≡ some (codes "/srv"))
    × (path_allowed (codes "/srv") true (some (codes "/srv/a")) ≡ false)
mint_root_barred_example =
    mint_root_barred b'/' (codes "srv") true (some (codes "/srv/a")) (omega arith) refl

serve_all-IsSound_example : IsSound (serve_all requests nothing)
unfolding guest_begin guest_begin_nested guest_mint_fscap guest_mint_alloccap guest_mint_fuelcap
    guest_mint_netcap mint_root_or_default mint_root fscap_mint guest_end tear_down
    unlink_from_parent fuelcap_burn alloccap_alloc guest_bump_alloc
serve_all-IsSound_example =
    serve_all-IsSound requests nothing
      (
        refl,
        (
          refl,
          (refl, (refl, (refl, (refl, (tt, (tt, ((serve_all requests nothing, refl), tt))))))),
        ),
      )
      nothing-IsSound
