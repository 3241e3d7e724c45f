-- ===== src/Cap/Tests/Probes.antt =====
-- A concrete run of the probe of a TLS connection (host/cap/fx_net_tls_probe.c).
use fxlang.Prelude.{
  ℕ, zero, suc, ◌≡◌, ◌≤◌, ◌<◌, refl, ap, some, [], ◌∷◌, ◌++◌, arith, min, pos, length, take, drop,
  Text, codes,
}
use fxlang.Cap.Net.Probe.{Io, fx_net_tls_http_get_smoke}
use fxlang.Cap.Net.Probe.Reply.{Delivers, smoke-verdict}

append-take-drop : (n : ℕ) (t : Text) → t ≡ take n t ++ drop n t
append-take-drop zero t = refl
append-take-drop (suc n) [] = refl
append-take-drop (suc n) (c ∷ t) = ap (λ s. c ∷ s) (append-take-drop n t)

length-take_le : (n : ℕ) (t : Text) → length (take n t) ≤ n
length-take_le zero t = omega arith
length-take_le (suc n) [] = omega arith
length-take_le (suc n) (c ∷ t) = omega (arith, length-take_le n t)

take_nothing : (n : ℕ) (t : Text) → 0 < n → take n t ≡ [] → t ≡ []
take_nothing zero t some_asked e = absurd (omega arith)
take_nothing (suc n) [] some_asked e = refl
take_nothing (suc n) (c ∷ t) some_asked e = cc

-- A server that sends at most three bytes at a time.
abbrev slow : Io Text
slow = record {
  write = λ c request. (pos (length request), c);
  read = λ c asked. (some (take (min asked 3) c), drop (min asked 3) c);
}

slow-Delivers : Delivers slow (λ c. c)
slow-Delivers = record {
  piece = λ c asked. take (min asked 3) c;
  next = λ c asked. drop (min asked 3) c;
  reads = λ c asked. refl;
  in_order = λ c asked. append-take-drop (min asked 3) c;
  bounded = λ c asked. omega (arith, length-take_le (min asked 3) c);
  ends = λ c asked some_asked e. take_nothing (min asked 3) c (omega arith) e;
}

smoke-verdict_example : fx_net_tls_http_get_smoke slow (codes "HTTP/1.0 200") ≡ some 42
smoke-verdict_example =
    smoke-verdict slow (λ c. c) (codes "HTTP/1.0 200") (codes "HTTP/1.0 200") slow-Delivers refl
