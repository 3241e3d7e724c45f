-- ===== src/Cap/Net/Dial.antt =====
-- What a dial does with sockets, and to whom.
use fxlang.Prelude.{
  ℕ, ◌≡◌, refl, ap, ◌≢◌, ◌⊎◌, inl, inr, Bool, true, false, Option, none, some, List, [], ◌∷◌, ◌++◌,
  arith, Option-cases, Ptr, Text, text_eq_sound, ℤ, pos, ◌≤ℤ◌, All, ◌∙◌,
}
use fxlang.Cap.{Runtime, NetCap, as_net}
use fxlang.Cap.Net.{
  netcap_allows, Attempt, connected, unreachable, no_socket, Dialled, dial_loop, netcap_dial,
}

-- Where `fx_netcap_allows` lets a host and port through, the handle is that of a live NetCap, the
-- host is not empty and is the one it allows, and the port is in its range.
pub netcap_allows_lem :
    (rt : Runtime) (net : Ptr) (host : Text) (port : ℤ)
    → netcap_allows rt net (some host) port ≡ true
    → (c : NetCap) × (as_net (rt.caps net) ≡ some c)
      × (c.live ≡ true)
      × (c.allow_host ≡ host)
      × (host ≢ [])
      × (c.port_min ≤ℤ port)
      × (port ≤ℤ c.port_max)
unfolding netcap_allows
netcap_allows_lem rt net host port h = elim (Option-cases (as_net (rt.caps net))) [
  | inl e ↦ absurd (ground arith)
  | inr (c, e) ↦ (
    c,
    e,
    ground arith,
    text_eq_sound c.allow_host host (ground arith),
    ground arith,
    ground arith,
    ground arith,
  )
]

-- What the loop opened is closed again, but for the socket that it ends with.
closed_again :
    (tries : List Attempt)
    → let d = dial_loop tries in
      (d.opened ≡ d.closed) × (d.sock ≡ none)
      ⊎ ((s : ℕ) × (d.sock ≡ some s) × (d.opened ≡ d.closed ++ (s ∷ [])))
unfolding dial_loop
closed_again [] = inl (refl, refl)
closed_again (no_socket ∷ tries) = closed_again tries
closed_again (unreachable s ∷ tries) = elim (closed_again tries) [
  | inl h ↦ inl (ap (λ l. s ∷ l) h.0, h.1)
  | inr (t, e, h) ↦ inr (t, e, ap (λ l. s ∷ l) h)
]
closed_again (connected s ∷ tries) = inr (s, refl, refl)

-- A call of `fx_netcap_dial` either returns 0 and has closed every socket that it opened (it may
-- have opened none), or it returns the one socket that is still open; and then the capability allows
-- the host and port, and no TLS was asked for.
pub netcap_dial_lem :
    (rt : Runtime) (net : Ptr) (host : Option Text) (port tls : ℤ) (ready : Bool)
    (answers : Option (List Attempt))
    → let (r, d) = netcap_dial rt net host port tls ready answers in
      ((r ≡ 0) × (d.opened ≡ d.closed))
      ⊎ ((d.opened ≡ d.closed ++ (r ∷ []))
          × (netcap_allows rt net host port ≡ true)
          × (tls ≡ pos 0))
unfolding netcap_dial
netcap_dial_lem rt net host port tls ready none = inl (ground arith)
netcap_dial_lem rt net host port tls ready (some tries) = elim (closed_again tries) [
  | inl h ↦ inl (ground arith)
  | inr h ↦ ground arith
]

-- No socket is opened for a host and port that the capability does not allow.
pub netcap_dial_denied :
    (rt : Runtime) (net : Ptr) (host : Option Text) (port tls : ℤ) (ready : Bool)
    (answers : Option (List Attempt))
    → netcap_allows rt net host port ≡ false
    → let (r, d) = netcap_dial rt net host port tls ready answers in (r ≡ 0) × (d.opened ≡ [])
unfolding netcap_dial
netcap_dial_denied rt net host port tls ready answers h = ground arith

-- The sockets of addresses that were tried.
abbrev pub sockets : List Attempt → List ℕ
sockets [] = []
sockets (no_socket ∷ tries) = sockets tries
sockets (unreachable s ∷ tries) = s ∷ sockets tries
sockets (connected s ∷ tries) = s ∷ sockets tries

abbrev pub Fails : Attempt → Type 0
Fails no_socket = Unit
Fails (unreachable s) = Unit
Fails (connected s) = ⊥

-- The first address that connects ends the loop, after those before it.
dial_loop-first :
    (failed rest : List Attempt) (s : ℕ)
    → All Fails failed
    → dial_loop (failed ++ connected s ∷ rest)
      ≡ record { sock = some s; opened = sockets failed ++ s ∷ []; closed = sockets failed }
unfolding dial_loop
dial_loop-first [] rest s all = refl
dial_loop-first (no_socket ∷ failed) rest s (_, all) = dial_loop-first failed rest s all
dial_loop-first (unreachable t ∷ failed) rest s (_, all) =
    ap (λ (d : Dialled). record { sock = d.sock; opened = t ∷ d.opened; closed = t ∷ d.closed })
      (dial_loop-first failed rest s all)
dial_loop-first (connected t ∷ failed) rest s (gone, all) = elim gone [ ]

dial_allowed :
    (rt : Runtime) (net : Ptr) (host : Option Text) (port : ℤ) (tries : List Attempt)
    → netcap_allows rt net host port ≡ true
    → pos 1 ≤ℤ port
    → port ≤ℤ pos 65535
    → netcap_dial rt net host port (pos 0) true (some tries)
      ≡ (let d = dial_loop tries in (elim d.sock [ none ↦ 0 | some s ↦ s ], d))
unfolding netcap_dial netcap_allows
dial_allowed rt net none port tries h lo hi = absurd (ground arith)
dial_allowed rt net (some host) port tries h lo hi = ground arith

-- An allowed dial returns the descriptor of the first address that connects, whatever failed before
-- it and follows behind it: those opened before are closed, in order, and this one is left open. Where
-- the descriptor is 0, that is the value for a failure.
pub netcap_dial_first :
    (rt : Runtime) (net : Ptr) (host : Option Text) (port : ℤ) (failed rest : List Attempt) (s : ℕ)
    → netcap_allows rt net host port ≡ true
    → pos 1 ≤ℤ port
    → port ≤ℤ pos 65535
    → All Fails failed
    → let (r, d) =
        netcap_dial rt net host port (pos 0) true (some (failed ++ connected s ∷ rest)) in
      (r ≡ s) × (d.opened ≡ sockets failed ++ s ∷ []) × (d.closed ≡ sockets failed)
netcap_dial_first rt net host port failed rest s h lo hi all =
    let e = dial_allowed rt net host port (failed ++ connected s ∷ rest) h lo hi in
    let l = dial_loop-first failed rest s all in
    (
      ap (λ x. x.0) e ∙ ap (λ (d : Dialled). elim d.sock [ none ↦ 0 | some t ↦ t ]) l,
      ap (λ x. x.1.opened) e ∙ ap (λ (d : Dialled). d.opened) l,
      ap (λ x. x.1.closed) e ∙ ap (λ (d : Dialled). d.closed) l,
    )
