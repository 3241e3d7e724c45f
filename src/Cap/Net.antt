-- ===== src/Cap/Net.antt =====
-- NetCap: the allowlist (host/cap/fx_cap_runtime.c) and the dial (host/cap/fx_net_dial.c).
pub mod Dial
pub mod Probe
pub mod Windows
use fxlang.Prelude.{
  ℕ, ◌+◌, ◌≡◌, refl, ◌⊎◌, inl, inr, Bool, true, false, ◌||◌, not, Option, none, some, List, [], ◌∷◌,
  arith, ◌==◌, if◌then◌else◌, Ptr, Text, text_eq, is_blank, ℤ, pos, negsuc, ltb_ℤ, leb_ℤ,
}
use fxlang.Cap.{Runtime, NetCap, as_net}

unfoldable pub netcap_host_port_allowed : Option NetCap → Option Text → ℤ → Bool
netcap_host_port_allowed none host port = false
netcap_host_port_allowed (some c) none port = false
netcap_host_port_allowed (some c) (some host) port =
    if not c.live || is_blank (some host)
    then false
    else if ltb_ℤ port c.port_min || ltb_ℤ c.port_max port
    then false
    else text_eq c.allow_host host

unfoldable pub netcap_allows : Runtime → Ptr → Option Text → ℤ → Bool
unfolding netcap_host_port_allowed
netcap_allows rt net = netcap_host_port_allowed (as_net (rt.caps net))

-- What the network does with one address: `socket` fails, or it gives a descriptor, and `connect`
-- fails or succeeds on it.
pub data Attempt : Type 0 where
  no_socket : Attempt
  unreachable : (sock : ℕ) → Attempt
  connected : (sock : ℕ) → Attempt

-- The descriptors that were opened and those that were closed again, in order, beside the result.
pub record Dialled : Type 0 where
  pub sock : Option ℕ
  pub opened : List ℕ
  pub closed : List ℕ

-- The loop over the addresses of `getaddrinfo`; no descriptor is FX_SOCK_INVALID.
unfoldable pub dial_loop : List Attempt → Dialled
dial_loop [] = record { sock = none; opened = []; closed = [] }
dial_loop (no_socket ∷ rest) = dial_loop rest
dial_loop (unreachable s ∷ rest) =
    let d = dial_loop rest in record { sock = d.sock; opened = s ∷ d.opened; closed = s ∷ d.closed }
dial_loop (connected s ∷ rest) = record { sock = some s; opened = s ∷ []; closed = [] }

abbrev pub no_dial : ℕ × Dialled
no_dial = (0, record { sock = none; opened = []; closed = [] })

-- `net_ready` is what `ensure_net` returns, `answers` what `getaddrinfo` finds (`none` if it fails
-- or finds nothing) and the network does with it.
unfoldable pub netcap_dial :
    Runtime
    → Ptr
    → Option Text
    → (port want_tls : ℤ) → (net_ready : Bool) → (answers : Option (List Attempt)) → ℕ × Dialled
unfolding dial_loop
netcap_dial rt net host port want_tls net_ready answers =
    if ltb_ℤ want_tls (pos 0) || ltb_ℤ (pos 0) want_tls
    then no_dial
    else if is_blank host || leb_ℤ port (pos 0) || ltb_ℤ (pos 65535) port
    then no_dial
    else if not (netcap_allows rt net host port)
    then no_dial
    else if not net_ready
    then no_dial
    else elim answers [
      | none ↦ no_dial
      | some attempts ↦ let d = dial_loop attempts in (elim d.sock [ none ↦ 0 | some s ↦ s ], d)
    ]

-- `closes` is whether the system's `close` returns 0.
unfoldable pub netcap_close : (sock_handle : ℕ) → (closes : Bool) → ℕ
netcap_close sock_handle closes = if sock_handle == 0 then 1 else if closes then 0 else 1
