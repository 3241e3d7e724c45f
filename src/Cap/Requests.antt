-- ===== src/Cap/Requests.antt =====
-- Histories of calls of the cap runtime (host/cap/fx_cap_runtime.c), from any sound state.
use fxlang.Prelude.{ℕ, ◌≡◌, subst, arith, some, Option, none, List, [], ◌∷◌, Text, Ptr, ℤ}
use fxlang.Cap.{Runtime}
use fxlang.Cap.Mint.{
  guest_mint_fscap, guest_mint_outcap, guest_mint_alloccap, guest_mint_fuelcap, guest_mint_netcap,
}
use fxlang.Cap.Session.{guest_begin, guest_begin_nested, guest_end}
use fxlang.Cap.Budget.{alloccap_alloc, fuelcap_burn}
use fxlang.Cap.Invariant.Steps.{
  IsSound, Mints-IsSound, guest_mint_fscap-Mints, guest_mint_outcap-Mints,
  guest_mint_alloccap-Mints, guest_mint_fuelcap-Mints, guest_mint_netcap-Mints,
}
use fxlang.Cap.End.Histories.{guest_end-IsSound}
use fxlang.Cap.Invariant.Begun.{guest_begin-IsSound, guest_begin_nested-IsSound}
use fxlang.Cap.Invariant.Frames.{alloccap_alloc-IsSound, fuelcap_burn-IsSound}

-- A call with its arguments; `fresh` and `arena` are the addresses that the allocations give.
pub data Request : Type 0 where
  begin : (fresh arena : Ptr) → Option Text → ℤ → Request
  begin_nested : (parent fresh arena : Ptr) → Option Text → ℤ → Request
  mint_fs : (ctx fresh : Ptr) → Option Text → Request
  mint_out : (ctx fresh : Ptr) → Option Text → Request
  mint_alloc : (ctx fresh : Ptr) → ℤ → Request
  mint_fuel : (ctx fresh : Ptr) → ℤ → Request
  mint_net : (ctx fresh : Ptr) → Option Text → (port_min port_max : ℤ) → Request
  alloc : (handle : Ptr) → ℤ → Request
  burn : (handle : Ptr) → ℤ → Request
  end_session : (fuel : ℕ) (ctx : Ptr) → Request

-- The state that the call leaves.
abbrev pub serve : Request → Runtime → Runtime
serve (begin fresh arena root bytes) rt = (guest_begin rt fresh arena root bytes).1
serve (begin_nested parent fresh arena root bytes) rt =
    (guest_begin_nested rt parent fresh arena root bytes).1
serve (mint_fs ctx fresh root) rt = (guest_mint_fscap rt ctx fresh root).1
serve (mint_out ctx fresh root) rt = (guest_mint_outcap rt ctx fresh root).1
serve (mint_alloc ctx fresh budget) rt = (guest_mint_alloccap rt ctx fresh budget).1
serve (mint_fuel ctx fresh units) rt = (guest_mint_fuelcap rt ctx fresh units).1
serve (mint_net ctx fresh host lo hi) rt = (guest_mint_netcap rt ctx fresh host lo hi).1
serve (alloc handle bytes) rt = (alloccap_alloc rt handle bytes).1
serve (burn handle units) rt = (fuelcap_burn rt handle units).1
serve (end_session fuel ctx) rt = elim (guest_end fuel rt ctx) [ none ↦ rt | some r ↦ r ]

-- The fuel is enough for the call to return, and an allocation gives an address at which no object stands.
abbrev pub IsServed : Request → Runtime → Type 0
IsServed (begin fresh arena root bytes) rt = rt.guests fresh ≡ none
IsServed (begin_nested parent fresh arena root bytes) rt = rt.guests fresh ≡ none
IsServed (mint_fs ctx fresh root) rt = rt.caps fresh ≡ none
IsServed (mint_out ctx fresh root) rt = rt.caps fresh ≡ none
IsServed (mint_alloc ctx fresh budget) rt = rt.caps fresh ≡ none
IsServed (mint_fuel ctx fresh units) rt = rt.caps fresh ≡ none
IsServed (mint_net ctx fresh host lo hi) rt = rt.caps fresh ≡ none
IsServed (alloc handle bytes) rt = Unit {0}
IsServed (burn handle units) rt = Unit {0}
IsServed (end_session fuel ctx) rt = (r : Runtime) × (guest_end fuel rt ctx ≡ some r)

serve-IsSound : (q : Request) (rt : Runtime) → IsServed q rt → IsSound rt → IsSound (serve q rt)
serve-IsSound (begin fresh arena root bytes) rt u s =
    guest_begin-IsSound rt fresh arena root bytes u s
serve-IsSound (begin_nested parent fresh arena root bytes) rt u s =
    guest_begin_nested-IsSound rt parent fresh arena root bytes u s
serve-IsSound (mint_fs ctx fresh root) rt u s =
    Mints-IsSound rt ctx fresh _ u s (guest_mint_fscap-Mints rt ctx fresh root)
serve-IsSound (mint_out ctx fresh root) rt u s =
    Mints-IsSound rt ctx fresh _ u s (guest_mint_outcap-Mints rt ctx fresh root)
serve-IsSound (mint_alloc ctx fresh budget) rt u s =
    Mints-IsSound rt ctx fresh _ u s (guest_mint_alloccap-Mints rt ctx fresh budget)
serve-IsSound (mint_fuel ctx fresh units) rt u s =
    Mints-IsSound rt ctx fresh _ u s (guest_mint_fuelcap-Mints rt ctx fresh units)
serve-IsSound (mint_net ctx fresh host lo hi) rt u s =
    Mints-IsSound rt ctx fresh _ u s (guest_mint_netcap-Mints rt ctx fresh host lo hi)
serve-IsSound (alloc handle bytes) rt u s = alloccap_alloc-IsSound rt handle bytes s
serve-IsSound (burn handle units) rt u s = fuelcap_burn-IsSound rt handle units s
serve-IsSound (end_session fuel ctx) rt (r, run) s =
    subst IsSound (ground (arith, run)) (guest_end-IsSound fuel rt r ctx run s)

abbrev pub serve_all : List Request → Runtime → Runtime
serve_all [] rt = rt
serve_all (q ∷ qs) rt = serve_all qs (serve q rt)

abbrev pub AllServed : List Request → Runtime → Type 0
AllServed [] rt = Unit {0}
AllServed (q ∷ qs) rt = IsServed q rt × AllServed qs (serve q rt)

-- Any sequence of session begins, mints, allocations against a budget, burns of fuel and session
-- ends that return, each of them refused or not, keeps the runtime sound: the sessions form trees
-- in which the parent and children pointers agree, and each capability of a session belongs to it
-- alone and lives with it.
pub serve_all-IsSound :
    (qs : List Request) (rt : Runtime) → AllServed qs rt → IsSound rt → IsSound (serve_all qs rt)
serve_all-IsSound [] rt u s = s
serve_all-IsSound (q ∷ qs) rt (u, us) s =
    serve_all-IsSound qs (serve q rt) us (serve-IsSound q rt u s)
