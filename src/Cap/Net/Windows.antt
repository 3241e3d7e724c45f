-- ===== src/Cap/Net/Windows.antt =====
-- The dial (host/cap/fx_net_dial.c), as it is compiled for Windows: the sockets are started before the first
-- one is opened.
use fxlang.Prelude.{
  ℕ, ◌+◌, ◌≡◌, ◌⊎◌, inl, inr, refl, Bool, true, false, ◌||◌, not, Option, List, [], ◌∷◌, arith,
  if◌then◌else◌, Ptr, Text, is_blank, ℤ, pos, ltb_ℤ, leb_ℤ, Bool-cases,
}
use fxlang.Cap.{Runtime}
use fxlang.Cap.Net.{netcap_allows, netcap_dial, Attempt, Dialled, no_dial}

-- Whether the tests before `ensure_net` let the call go on.
abbrev goes_on : Runtime → Ptr → Option Text → (port want_tls : ℤ) → Bool
goes_on rt net host port want_tls =
    if ltb_ℤ want_tls (pos 0) || ltb_ℤ (pos 0) want_tls
    then false
    else if is_blank host || leb_ℤ port (pos 0) || ltb_ℤ (pos 65535) port
    then false
    else netcap_allows rt net host port

-- The result, the flag afterwards, and the number of calls of `WSAStartup` that succeed.
unfoldable ensure_net : (g_wsa_ready : Bool) → (starts : Bool) → Bool × Bool × ℕ
ensure_net true starts = (true, true, 0)
ensure_net false true = (true, true, 1)
ensure_net false false = (false, false, 0)

-- A call, with what `WSAStartup` and the network answer.
record Dial : Type 0 where
  net : Ptr
  host : Option Text
  port : ℤ
  want_tls : ℤ
  starts : Bool
  answers : Option (List Attempt)

-- The socket and what was opened, the flag afterwards, and the number of starts.
unfoldable netcap_dial_windows : Runtime → Dial → (g_wsa_ready : Bool) → (ℕ × Dialled) × Bool × ℕ
netcap_dial_windows rt d g_wsa_ready =
    if not (goes_on rt d.net d.host d.port d.want_tls)
    then (no_dial, g_wsa_ready, 0)
    else let (ok, ready, started) = ensure_net g_wsa_ready d.starts in
      (netcap_dial rt d.net d.host d.port d.want_tls ok d.answers, ready, started)

-- Calls one after the other: the flag afterwards, and how often the sockets were started.
unfoldable dial_all : Runtime → List Dial → (g_wsa_ready : Bool) → Bool × ℕ
dial_all rt [] ready = (ready, 0)
dial_all rt (d ∷ ds) ready =
    let (_, ready', started) = netcap_dial_windows rt d ready in
    let (ready'', later) = dial_all rt ds ready' in (ready'', started + later)

-- What a call, or a sequence of calls, may do to the flag: nothing, with no start, or set it with one start.
abbrev StartsOnce : (ready ready' : Bool) (started : ℕ) → Type 0
StartsOnce ready ready' started =
    ((ready' ≡ ready) × (started ≡ 0)) ⊎ ((ready ≡ false) × (ready' ≡ true) × (started ≡ 1))

ensure_net-StartsOnce :
    (ready starts : Bool)
    → let (_, ready', started) = ensure_net ready starts in StartsOnce ready ready' started
unfolding ensure_net
ensure_net-StartsOnce true starts = inl (refl, refl)
ensure_net-StartsOnce false true = inr (refl, refl, refl)
ensure_net-StartsOnce false false = inl (refl, refl)

dial-StartsOnce :
    (rt : Runtime) (d : Dial) (ready : Bool)
    → let (_, ready', started) = netcap_dial_windows rt d ready in StartsOnce ready ready' started
unfolding netcap_dial_windows
dial-StartsOnce rt d ready = elim (Bool-cases (goes_on rt d.net d.host d.port d.want_tls)) [
  | inl go ↦ rw go (ensure_net-StartsOnce ready d.starts)
  | inr stop ↦ rw stop (inl (refl, refl))
]

StartsOnce-trans :
    {a b c : Bool} {n m : ℕ} → StartsOnce a b n → StartsOnce b c m → StartsOnce a c (n + m)
StartsOnce-trans {b = b} first later = ground arith

-- In any sequence of dials the sockets are started at most once, and then exactly if the flag is set
-- afterwards and was not before.
dial_all-StartsOnce :
    (rt : Runtime) (ds : List Dial) (ready : Bool)
    → let (ready', started) = dial_all rt ds ready in StartsOnce ready ready' started
unfolding dial_all
dial_all-StartsOnce rt [] ready = inl (refl, refl)
dial_all-StartsOnce rt (d ∷ ds) ready =
    StartsOnce-trans (dial-StartsOnce rt d ready)
      (dial_all-StartsOnce rt ds (netcap_dial_windows rt d ready).1)
