-- ===== src/Cap/Net/Probe/Reply.antt =====
-- What the probe of a TLS connection (host/cap/fx_net_tls_probe.c) answers for a reply.
use fxlang.Prelude.{
  ℕ, zero, suc, ◌+◌, ◌-◌, ◌≡◌, ◌≤◌, ◌<◌, refl, sym, ap, subst, ◌∙◌, true, false, some, [], ◌∷◌,
  ◌++◌, append-nil, append_assoc, arith, if◌then◌else◌, ℤ, pos, length, length-append, Text, codes,
  starts_with, dec_lt, Bool-cases, inl, inr,
}
use fxlang.Cap.Net.Probe.{
  Io, request, is_http, answer, is_whole, probe_loop, fx_net_tls_http_get_smoke,
}

starts_with-length : (s p : Text) → starts_with s p ≡ true → length p ≤ length s
starts_with-length s [] e = omega arith
starts_with-length [] (c ∷ p) e = cc
starts_with-length (d ∷ s) (c ∷ p) e = ground (arith, starts_with-length s p)

starts_with-append_long :
    (s t p : Text) → length p ≤ length s → starts_with (s ++ t) p ≡ starts_with s p
starts_with-append_long s t [] long = ground arith
starts_with-append_long [] t (c ∷ p) long = absurd (omega arith)
starts_with-append_long (d ∷ s) t (c ∷ p) long =
    let rest : starts_with (s ++ t) p ≡ starts_with s p =
      starts_with-append_long s t p (omega arith) in
    ground (arith, rest)

abbrev http : Text
http = codes "HTTP"

is_http-starts_with : (got : Text) → is_http got ≡ starts_with got http
is_http-starts_with got = elim (Bool-cases (starts_with got http)) [
  | inl e ↦ let long : 4 ≤ length got = starts_with-length got http e in ground (arith, e)
  | inr e ↦ ground (arith, e)
]

-- The answer for a whole reply.
abbrev pub verdict : Text → ℕ
verdict reply = if starts_with reply (codes "HTTP") then 42 else 0

verdict-long : (got rest : Text) → 4 ≤ length got → verdict (got ++ rest) ≡ answer got
verdict-long got rest long =
    let same : starts_with (got ++ rest) http ≡ starts_with got http =
      starts_with-append_long got rest http long in
    ap (λ b. if b then 42 else 0) (same ∙ sym (is_http-starts_with got))

-- A connection that delivers a reply in pieces of any sizes: a read gives the next bytes of what is
-- left, at most as many as asked for, and none only at the end.
pub record Delivers {C : Type 0} (io : Io C) (left : C → Text) : Type 0 where
  pub piece : C → ℕ → Text
  pub next : C → ℕ → C
  pub reads : (c : C) (asked : ℕ) → io.read c asked ≡ (some (piece c asked), next c asked)
  pub in_order : (c : C) (asked : ℕ) → left c ≡ piece c asked ++ left (next c asked)
  pub bounded : (c : C) (asked : ℕ) → length (piece c asked) ≤ asked
  pub ends : (c : C) (asked : ℕ) → 0 < asked → piece c asked ≡ [] → left c ≡ []

module _ {C : Type 0} (io : Io C) (fuel : ℕ) (got : Text) (c after : C)
    (room : length got < 511) where
  probe_loop-ends :
      io.read c (511 - length got) ≡ (some [], after)
      → probe_loop io (suc fuel) got c ≡ some (answer got)
  unfolding probe_loop
  probe_loop-ends e = ground (arith, e)

  probe_loop-found :
      (b : ℕ) (more : Text)
      → io.read c (511 - length got) ≡ (some (b ∷ more), after)
      → length (got ++ b ∷ more) ≤ 511
      → is_http (got ++ b ∷ more) ≡ true
      → probe_loop io (suc fuel) got c ≡ some 42
  unfolding probe_loop
  probe_loop-found b more e fits found = ground (arith, e, found)

  probe_loop-goes_on :
      (b : ℕ) (more : Text)
      → io.read c (511 - length got) ≡ (some (b ∷ more), after)
      → length (got ++ b ∷ more) ≤ 511
      → is_http (got ++ b ∷ more) ≡ false
      → probe_loop io (suc fuel) got c ≡ probe_loop io fuel (got ++ b ∷ more) after
  unfolding probe_loop
  probe_loop-goes_on b more e fits found = ground (arith, e, found)

probe_loop-full :
    {C : Type 0} (io : Io C) (fuel : ℕ) (got : Text) (c : C)
    → 511 ≤ length got
    → probe_loop io (suc fuel) got c ≡ some (answer got)
unfolding probe_loop
probe_loop-full io fuel got c full = ground arith

-- A reply that begins otherwise is not taken for one.
answer-whole : (got : Text) → is_http got ≡ false → answer got ≡ verdict (got ++ [])
answer-whole got e =
    ap (λ b. if b then 42 else 0)
      (is_http-starts_with got ∙ ap (λ t. starts_with t http) (sym (append-nil got)))

verdict-found : (got rest : Text) → is_http got ≡ true → verdict (got ++ rest) ≡ 42
verdict-found got rest e =
    let whole : starts_with got http ≡ true = sym (is_http-starts_with got) ∙ e in
    verdict-long got rest (starts_with-length got http whole) ∙ ap (λ b. if b then 42 else 0) e

probe_loop-verdict :
    {C : Type 0} (io : Io C) (left : C → Text) (d : Delivers io left) (fuel : ℕ) (got : Text)
    (c : C)
    → is_http got ≡ false
    → length got ≤ 511
    → 511 < fuel + length got
    → probe_loop io fuel got c ≡ some (verdict (got ++ left c))
probe_loop-verdict io left d zero got c not_yet fits enough = absurd (omega arith)
probe_loop-verdict {C = C} io left d (suc fuel) got c not_yet fits enough =
    elim (dec_lt (length got) 511) [
      | no full ↦
          probe_loop-full io fuel got c (omega arith)
          ∙ ap some (sym (verdict-long got (left c) (omega arith)))
      | yes room ↦
          by_piece (probe_loop-verdict io left d fuel) room (d.piece c (511 - length got)) refl
    ]
  where
    by_piece :
        ((got : Text) (c : C)
          → is_http got ≡ false
          → length got ≤ 511
          → 511 < fuel + length got
          → probe_loop io fuel got c ≡ some (verdict (got ++ left c)))
        → length got < 511
        → (bytes : Text) → d.piece c (511 - length got) ≡ bytes
        → probe_loop io (suc fuel) got c ≡ some (verdict (got ++ left c))
    by_piece again room [] e =
        let after = d.next c (511 - length got) in
        let read = d.reads c (511 - length got) ∙ ap (λ t. (some t, after)) e in
        let nothing = d.ends c (511 - length got) (omega arith) e in
        probe_loop-ends io fuel got c after room read
        ∙ ap some (answer-whole got not_yet ∙ ap (λ t. verdict (got ++ t)) (sym nothing))
    by_piece again room (b ∷ more) e =
        let after = d.next c (511 - length got) in
        let read = d.reads c (511 - length got) ∙ ap (λ t. (some t, after)) e in
        let small : length (b ∷ more) ≤ 511 - length got =
          subst (λ t. length t ≤ 511 - length got) e (d.bounded c (511 - length got)) in
        let fits' : length (got ++ b ∷ more) ≤ 511 =
          omega (arith, length-append got (b ∷ more), small) in
        let larger : length got < length (got ++ b ∷ more) =
          omega (arith, length-append got (b ∷ more)) in
        let split : got ++ left c ≡ (got ++ b ∷ more) ++ left after =
          ap (λ t. got ++ t) (d.in_order c (511 - length got) ∙ ap (λ t. t ++ left after) e)
          ∙ sym (append_assoc got (b ∷ more) (left after)) in
        elim (Bool-cases (is_http (got ++ b ∷ more))) [
          | inl found ↦
              probe_loop-found io fuel got c after room b more read fits' found
              ∙ ap some
                  (sym (ap verdict split ∙ verdict-found (got ++ b ∷ more) (left after) found))
          | inr missing ↦
              probe_loop-goes_on io fuel got c after room b more read fits' missing
              ∙ again (got ++ b ∷ more) after missing fits' (omega arith)
              ∙ ap (λ t. some (verdict t)) (sym split)
        ]

-- On a connection that takes the whole request and then delivers a reply in pieces of any sizes,
-- `fx_net_tls_http_get_smoke` ends, writes nothing behind its buffer, and returns 42 exactly when the
-- reply begins with "HTTP" and 0 otherwise.
pub smoke-verdict :
    {C : Type 0} (io : Io C) (left : C → Text) (c sent : C)
    → Delivers io left
    → io.write c request ≡ (pos (length request), sent)
    → fx_net_tls_http_get_smoke io c ≡ some (verdict (left sent))
unfolding fx_net_tls_http_get_smoke
smoke-verdict {C = C} io left c sent d taken =
    let loop = probe_loop-verdict io left d 512 [] sent refl (omega arith) (omega arith) in
    ap (λ (o : ℤ × C). if is_whole o.0 then probe_loop io 512 [] o.1 else some 0) taken ∙ loop
