-- ===== src/Cap/Net/Probe.antt =====
-- The probe of a TLS connection (host/cap/fx_net_tls_probe.c). The connection is a state of any type,
-- and `fx_netcap_write` and `fx_netcap_read`, which are not in the repository, are arguments.
pub mod Reply
use fxlang.Prelude.{
  ℕ, zero, suc, ◌+◌, ◌-◌, Bool, true, false, not, ◌&&◌, Option, none, some, List, [], ◌∷◌, ◌++◌,
  ltb, leb, ◌==◌, if◌then◌else◌, ℤ, pos, negsuc, length, Text, codes, starts_with,
}

-- `read c asked` is what `fx_netcap_read` puts into the buffer, `none` for an error, and the connection
-- that it leaves; `write c request` is what `fx_netcap_write` returns.
pub record Io (C : Type 0) : Type 0 where
  pub write : C → Text → ℤ × C
  pub read : C → ℕ → Option Text × C

abbrev pub request : Text
request = codes "GET / HTTP/1.0\r\nHost: localhost\r\n\r\n"

-- `got >= 4 && memcmp(buf, "HTTP", 4) == 0`, of the bytes that were read.
abbrev pub is_http : Text → Bool
is_http got = leb 4 (length got) && starts_with got (codes "HTTP")

-- What is returned after the loop.
abbrev pub answer : Text → ℕ
answer got = if is_http got then 42 else 0

-- The loop with the bytes read so far. `none` where a read writes behind the 512 bytes, and where the
-- loop has not ended within the fuel.
unfoldable pub probe_loop : {C : Type 0} → Io C → (fuel : ℕ) → (got : Text) → C → Option ℕ
probe_loop io zero got c = none
probe_loop io (suc fuel) got c = elim (ltb (length got) 511) [
  | false ↦ some (answer got)
  | true ↦
      let (bytes, next) = io.read c (511 - length got) in
      elim bytes [
        | none ↦ some 0
        | some [] ↦ some (answer got)
        | some (b ∷ more) ↦ elim (leb (length (got ++ b ∷ more)) 511) [
          | false ↦ none
          | true ↦ elim (is_http (got ++ b ∷ more)) [
            | true ↦ some 42
            | false ↦ probe_loop io fuel (got ++ b ∷ more) next
          ]
        ]
      ]
]

abbrev pub is_whole : ℤ → Bool
is_whole (pos n) = n == length request
is_whole (negsuc n) = false

-- A read gives a byte or ends the loop, so 512 rounds are enough.
unfoldable pub fx_net_tls_http_get_smoke : {C : Type 0} → Io C → C → Option ℕ
unfolding probe_loop
fx_net_tls_http_get_smoke io c =
    let (n, sent) = io.write c request in if is_whole n then probe_loop io 512 [] sent else some 0
