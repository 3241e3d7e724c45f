-- ===== src/Cap/Tests/Budgets.antt =====
-- Concrete runs of the theorems on budgets, the network and writes (host/cap).
use fxlang.Prelude.{
  ◌+◌, ◌≡◌, refl, ◌⊎◌, true, none, some, List, [], ◌∷◌, arith, ◌++◌, codes, update, pos, negsuc,
}
use fxlang.Cap.{Cap, RootCap, NetCap, Guest, Runtime}
use fxlang.Cap.Session.{new_guest}
use fxlang.Cap.Budget.Arena.{HasArena, Stacked, grants, grants-Stacked}
use fxlang.Cap.Budget.Spending.{spend, budget_of, spend_conserves}
use fxlang.Cap.Net.{netcap_allows, netcap_dial, Attempt, no_socket, unreachable, connected}
use fxlang.Cap.Net.Dial.{netcap_dial_lem, netcap_dial_first}
use fxlang.Cap.FileIo.{Reading, Writing, io_cap_read_file, io_cap_write_file, cap_denied}
use fxlang.Cap.Path.Confined.{posix}
use fxlang.Cap.FileIo.Confined.{OpensBelow, files_confined}

-- A session that begins with an arena of 1024 bytes at 4096.
abbrev outer : Guest
outer = record (new_guest (codes "data") 4096 1024 0) { children = [] }

abbrev writable : Writing
writable = record { opens = true; wrote = 2; closes = true }

abbrev net_cap : NetCap
net_cap = record {
  allow_host = codes "localhost";
  port_min = pos 1;
  port_max = pos 80;
  live = true;
}

-- An OutCap, an AllocCap, a FuelCap and a NetCap at 3, 4, 5 and 6, and session 1.
abbrev four : Runtime
four = record {
  guests = update (λ p. none) 1 (some outer);
  caps =
      update
        (update
          (update
            (update (λ p. none) 3 (some (Cap.out (record { root = codes "log"; live = true })))) 4
            (some (Cap.alloc (record { ctx = 1; budget_remaining = 64; live = true }))))
          5 (some (Cap.fuel (record { ctx = 1; units_remaining = 3; live = true }))))
        6 (some (Cap.net net_cap));
  last_text = none;
}

abbrev readable : Reading
readable = record {
  opens = true;
  seeks_end = true;
  size = pos 2;
  seeks_back = true;
  allocates = true;
  bytes = codes "ok";
}

-- An FsCap at 2, besides.
abbrev log_root : RootCap
log_root = record { root = codes "log"; live = true }

abbrev five : Runtime
five = record four { caps = update four.caps 2 (some (Cap.fs log_root)) }

files_confined_example :
    let (status, opened, rt') = io_cap_read_file five 2 (some (codes "log/a")) readable in
    let (status', opened', written) =
      io_cap_write_file five 3 (some (codes "log/a")) (some (codes "ok")) writable in
    (((status ≡ cap_denied) × (opened ≡ []) × (rt'.last_text ≡ none))
      ⊎ OpensBelow posix log_root (codes "log/a") opened)
    × (((status' ≡ cap_denied) × (opened' ≡ []) × (written ≡ []))
        ⊎ OpensBelow posix log_root (codes "log/a") opened')
files_confined_example =
    files_confined posix five 2 3 (codes "log/a") readable (some (codes "ok")) writable log_root
      log_root (omega arith) refl (λ e. cc) refl (λ e. cc)

four-HasArena : HasArena four 1 4096 1024 0
four-HasArena = record {
  guest = outer;
  found = refl;
  alive = refl;
  base = refl;
  mapped = λ e. omega (arith, e);
  size_is = refl;
  used_is = refl;
  small = omega arith;
  fits = omega arith;
}

grants-Stacked_example :
    Stacked 4096 4096 5120 (grants four 1 (pos 3 ∷ negsuc 7 ∷ pos 2000 ∷ pos 24 ∷ [])).0
grants-Stacked_example =
    grants-Stacked (pos 3 ∷ negsuc 7 ∷ pos 2000 ∷ pos 24 ∷ []) four 1 4096 1024 0 four-HasArena

spend_conserves_example :
    (spend four 4 (pos 24 ∷ negsuc 9 ∷ pos 100 ∷ [])).0
      + budget_of ((spend four 4 (pos 24 ∷ negsuc 9 ∷ pos 100 ∷ [])).1.caps 4)
    ≡ 64
spend_conserves_example = spend_conserves (pos 24 ∷ negsuc 9 ∷ pos 100 ∷ []) four 4

abbrev tries : List Attempt
tries = no_socket ∷ unreachable 3 ∷ connected 4 ∷ []

netcap_dial_lem_example :
    let (r, d) = netcap_dial four 6 (some (codes "localhost")) (pos 80) (pos 0) true (some tries) in
    ((r ≡ 0) × (d.opened ≡ d.closed))
    ⊎ ((d.opened ≡ d.closed ++ (r ∷ []))
        × (netcap_allows four 6 (some (codes "localhost")) (pos 80) ≡ true)
        × (pos 0 ≡ pos 0))
netcap_dial_lem_example =
    netcap_dial_lem four 6 (some (codes "localhost")) (pos 80) (pos 0) true (some tries)

netcap_dial_first_example :
    let (r, d) =
      netcap_dial four 6
        (some (codes "localhost"))
        (pos 80)
        (pos 0)
        true
        (some (no_socket ∷ unreachable 3 ∷ connected 0 ∷ [])) in
    (r ≡ 0) × (d.opened ≡ 3 ∷ 0 ∷ []) × (d.closed ≡ 3 ∷ [])
unfolding netcap_allows
netcap_dial_first_example =
    netcap_dial_first four 6 (some (codes "localhost")) (pos 80) (no_socket ∷ unreachable 3 ∷ []) []
      0 refl (omega arith) (omega arith) (tt, (tt, tt))
