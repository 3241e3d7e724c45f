-- ===== src/Cap/Mint.antt =====
-- Minting capabilities, outside of a session and inside one (host/cap/fx_cap_runtime.c).
-- Each function returns the new handle, 0 if it refuses, and the new runtime.
use fxlang.Prelude.{
  ℕ, Bool, true, ◌||◌, Option, none, some, [], ◌∷◌, ◌++◌, ◌==◌, leb, if◌then◌else◌, Text, length,
  Ptr, update, ℤ, pos, negsuc, ltb_ℤ, is_blank,
}
use fxlang.Cap.Path.{root_size, mint_root}
use fxlang.Cap.{
  RootCap, Cap, Guest, Runtime, max_caps, put_cap, put_guest, clear_last_text, live_guest, as_fs,
  as_out,
}

-- `fx_fscap_mint` and `fx_outcap_mint` differ in the type of the object.
mint_rooted : (RootCap → Cap) → Runtime → (fresh : Ptr) → Option Text → Ptr × Runtime
mint_rooted kind rt fresh root_dir =
    if fresh == 0 then (0, rt) else elim (mint_root root_size root_dir) [
      | none ↦ (0, rt)
      | some root ↦ (fresh, put_cap rt fresh (kind (record { root = root; live = true })))
    ]

unfoldable pub fscap_mint : Runtime → (fresh : Ptr) → Option Text → Ptr × Runtime
unfolding mint_rooted
fscap_mint = mint_rooted Cap.fs

unfoldable pub outcap_mint : Runtime → (fresh : Ptr) → Option Text → Ptr × Runtime
unfolding mint_rooted
outcap_mint = mint_rooted Cap.out

-- The object is given back: its address holds nothing afterwards.
unfoldable pub fscap_free : Runtime → Ptr → Runtime
fscap_free rt cap = elim (as_fs (rt.caps cap)) [
  | none ↦ rt
  | some _ ↦ clear_last_text (record rt { caps = update rt.caps cap none })
]

unfoldable pub outcap_free : Runtime → Ptr → Runtime
outcap_free rt cap = elim (as_out (rt.caps cap)) [
  | none ↦ rt
  | some _ ↦ record rt { caps = update rt.caps cap none }
]

-- A blank root falls back on the session's own.
unfoldable pub mint_root_or_default : Guest → Option Text → Option Text
mint_root_or_default g none = if length g.root == 0 then none else some g.root
mint_root_or_default g (some []) = if length g.root == 0 then none else some g.root
mint_root_or_default g (some (c ∷ s)) = some (c ∷ s)

unfoldable pub guest_mint_fscap : Runtime → Ptr → (fresh : Ptr) → Option Text → Ptr × Runtime
unfolding mint_root_or_default fscap_mint
guest_mint_fscap rt ctx fresh root = elim (live_guest (rt.guests ctx)) [
  | none ↦ (0, rt)
  | some g ↦
      if leb max_caps (length g.fs_caps) then (0, rt) else elim (mint_root_or_default g root) [
        | none ↦ (0, rt)
        | some use_root ↦
            let (cap, rt') = fscap_mint rt fresh (some use_root) in
            if cap == 0
            then (0, rt)
            else (cap, put_guest rt' ctx (record g { fs_caps = g.fs_caps ++ (cap ∷ []) }))
      ]
]

unfoldable pub guest_mint_outcap : Runtime → Ptr → (fresh : Ptr) → Option Text → Ptr × Runtime
unfolding mint_root_or_default outcap_mint
guest_mint_outcap rt ctx fresh root = elim (live_guest (rt.guests ctx)) [
  | none ↦ (0, rt)
  | some g ↦
      if leb max_caps (length g.out_caps) then (0, rt) else elim (mint_root_or_default g root) [
        | none ↦ (0, rt)
        | some use_root ↦
            let (cap, rt') = outcap_mint rt fresh (some use_root) in
            if cap == 0
            then (0, rt)
            else (cap, put_guest rt' ctx (record g { out_caps = g.out_caps ++ (cap ∷ []) }))
      ]
]

-- A budget of 0 or less is refused.
unfoldable pub guest_mint_alloccap : Runtime → Ptr → (fresh : Ptr) → ℤ → Ptr × Runtime
guest_mint_alloccap rt ctx fresh (negsuc _) = (0, rt)
guest_mint_alloccap rt ctx fresh (pos budget) = elim (live_guest (rt.guests ctx)) [
  | none ↦ (0, rt)
  | some g ↦
      if (budget == 0) || leb max_caps (length g.alloc_caps) || (fresh == 0) then (0, rt) else (
        fresh,
        put_guest
            (put_cap rt fresh
              (Cap.alloc (record { ctx = ctx; budget_remaining = budget; live = true })))
            ctx (record g { alloc_caps = g.alloc_caps ++ (fresh ∷ []) }),
      )
]

unfoldable pub guest_mint_fuelcap : Runtime → Ptr → (fresh : Ptr) → ℤ → Ptr × Runtime
guest_mint_fuelcap rt ctx fresh (negsuc _) = (0, rt)
guest_mint_fuelcap rt ctx fresh (pos units) = elim (live_guest (rt.guests ctx)) [
  | none ↦ (0, rt)
  | some g ↦
      if (units == 0) || leb max_caps (length g.fuel_caps) || (fresh == 0) then (0, rt) else (
        fresh,
        put_guest
            (put_cap rt fresh
              (Cap.fuel (record { ctx = ctx; units_remaining = units; live = true })))
            ctx (record g { fuel_caps = g.fuel_caps ++ (fresh ∷ []) }),
      )
]

-- The size of `allow_host`.
abbrev pub host_size : ℕ
host_size = 256

abbrev pub refuses_net : Guest → (fresh : Ptr) → Text → (port_min port_max : ℤ) → Bool
refuses_net g fresh host lo hi =
    is_blank (some host)
    || (ltb_ℤ lo (pos 1) || ltb_ℤ (pos 65535) hi || ltb_ℤ hi lo)
    || leb max_caps (length g.net_caps)
    || leb host_size (length host)
    || (fresh == 0)

unfoldable pub guest_mint_netcap :
    Runtime → Ptr → (fresh : Ptr) → Option Text → (port_min port_max : ℤ) → Ptr × Runtime
guest_mint_netcap rt ctx fresh none lo hi = (0, rt)
guest_mint_netcap rt ctx fresh (some host) lo hi = elim (live_guest (rt.guests ctx)) [
  | none ↦ (0, rt)
  | some g ↦ if refuses_net g fresh host lo hi then (0, rt) else (
    fresh,
    put_guest
        (put_cap rt fresh
          (Cap.net (record { allow_host = host; port_min = lo; port_max = hi; live = true })))
        ctx (record g { net_caps = g.net_caps ++ (fresh ∷ []) }),
  )
]
