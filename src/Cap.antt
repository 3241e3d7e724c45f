-- ===== src/Cap.antt =====
-- The objects of host/cap/fx_cap_runtime.h. A handle is the address of its object, 0 is no object.
-- What `calloc` returns is an argument `fresh` of each function that allocates, 0 if it failed.
-- A handle that names no object of its kind is read as 0.
pub mod Path
pub mod Mint
pub mod Session
pub mod Budget
pub mod Net
pub mod FileIo
pub mod Invariant
pub mod Requests
pub mod End
pub mod Denied
pub mod Tests
use fxlang.Prelude.{
  ℕ, ◌*◌, Bool, true, false, Option, none, some, List, [], ◌++◌, Text, Ptr, Table, ℤ, update,
  if◌then◌else◌,
}

-- `FxFsCap` and `FxOutCap`
pub record RootCap : Type 0 where
  pub root : Text
  pub live : Bool

-- `FxAllocCap`. The budget is minted positive and never taken below 0.
pub record AllocCap : Type 0 where
  pub ctx : Ptr
  pub budget_remaining : ℕ
  pub live : Bool

-- `FxFuelCap`
pub record FuelCap : Type 0 where
  pub ctx : Ptr
  pub units_remaining : ℕ
  pub live : Bool

-- `FxNetCap`
pub record NetCap : Type 0 where
  pub allow_host : Text
  pub port_min : ℤ
  pub port_max : ℤ
  pub live : Bool

-- What stands at the address of a capability.
pub data Cap : Type 0 where
  fs : RootCap → Cap
  out : RootCap → Cap
  alloc : AllocCap → Cap
  fuel : FuelCap → Cap
  net : NetCap → Cap

-- `struct FxGuestCtx`. Each array with its count is a list; `root` is empty where it is unset.
pub record Guest : Type 0 where
  pub root : Text
  pub arena : Ptr
  pub arena_size : ℕ
  pub arena_used : ℕ
  pub fs_caps : List Ptr
  pub out_caps : List Ptr
  pub alloc_caps : List Ptr
  pub fuel_caps : List Ptr
  pub net_caps : List Ptr
  pub parent : Ptr
  pub children : List Ptr
  pub live : Bool

-- The memory of the runtime, and the static `g_last_text`.
pub record Runtime : Type 0 where
  pub guests : Table Guest
  pub caps : Table Cap
  pub last_text : Option Text

abbrev pub max_caps : ℕ
max_caps = 16

abbrev pub max_children : ℕ
max_children = 8

abbrev pub default_arena : ℕ
default_arena = 64 * 1024

abbrev pub is_live : Cap → Bool
is_live (fs c) = c.live
is_live (out c) = c.live
is_live (alloc c) = c.live
is_live (fuel c) = c.live
is_live (net c) = c.live

-- All capabilities of a session.
abbrev pub owned : Guest → List Ptr
owned g = g.fs_caps ++ (g.out_caps ++ (g.alloc_caps ++ (g.fuel_caps ++ g.net_caps)))

-- The reads of a handle by the type that its user expects. The code casts it unchecked; a handle of an
-- object of another type, for which C leaves open what happens, is read as none.
abbrev pub as_fs : Option Cap → Option RootCap
as_fs (some (fs c)) = some c
as_fs _ = none

abbrev pub as_out : Option Cap → Option RootCap
as_out (some (out c)) = some c
as_out _ = none

abbrev pub as_alloc : Option Cap → Option AllocCap
as_alloc (some (alloc c)) = some c
as_alloc _ = none

abbrev pub as_fuel : Option Cap → Option FuelCap
as_fuel (some (fuel c)) = some c
as_fuel _ = none

abbrev pub as_net : Option Cap → Option NetCap
as_net (some (net c)) = some c
as_net _ = none

-- `clear_last_text`
abbrev pub clear_last_text : Runtime → Runtime
clear_last_text rt = record rt { last_text = none }

abbrev pub put_cap : Runtime → Ptr → Cap → Runtime
put_cap rt p c = record rt { caps = update rt.caps p (some c) }

abbrev pub put_guest : Runtime → Ptr → Guest → Runtime
put_guest rt p g = record rt { guests = update rt.guests p (some g) }

-- A session that `fx_guest_from_handle` finds and that is live.
abbrev pub live_guest : Option Guest → Option Guest
live_guest none = none
live_guest (some g) = if g.live then some g else none
