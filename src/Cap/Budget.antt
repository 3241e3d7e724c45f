-- ===== src/Cap/Budget.antt =====
-- The arena of a session, and the two budgets (host/cap/fx_cap_runtime.c). A function that
-- allocates returns the address of the block, 0 if it refuses, and the new runtime.
pub mod Arena
pub mod Spending
use fxlang.Prelude.{
  ℕ, ◌+◌, ◌-◌, ◌*◌, ◌/◌, ◌%◌, ◌^◌, Bool, true, false, ◌||◌, not, Option, none, some, ◌==◌, ltb,
  if◌then◌else◌, Ptr, ℤ, pos, negsuc,
}
use fxlang.Cap.{Cap, Runtime, put_cap, put_guest, live_guest, as_alloc, as_fuel}

-- `(used + (align - 1)) & ~(align - 1)` in a 64-bit size_t, with pointers of 8 bytes.
abbrev pub align_up : ℕ → ℕ
align_up used = (used + 7) % 2 ^ 64 / 8 * 8

unfoldable pub guest_bump_alloc : Runtime → Ptr → ℤ → Ptr × Runtime
guest_bump_alloc rt ctx (negsuc _) = (0, rt)
guest_bump_alloc rt ctx (pos n) = elim (live_guest (rt.guests ctx)) [
  | none ↦ (0, rt)
  | some g ↦
      let padded = align_up g.arena_used in
      if (g.arena == 0) || (n == 0) || ltb g.arena_size padded || ltb (g.arena_size - padded) n
      then (0, rt)
      else (g.arena + padded, put_guest rt ctx (record g { arena_used = padded + n }))
]

unfoldable pub guest_alloc : Runtime → Ptr → ℤ → Ptr × Runtime
unfolding guest_bump_alloc
guest_alloc rt ctx nbytes = guest_bump_alloc rt ctx nbytes

unfoldable pub alloccap_alloc : Runtime → Ptr → ℤ → Ptr × Runtime
alloccap_alloc rt cap (negsuc _) = (0, rt)
alloccap_alloc rt cap (pos n) = elim (as_alloc (rt.caps cap)) [
  | none ↦ (0, rt)
  | some c ↦
      if not c.live || (n == 0) || ltb c.budget_remaining n
      then (0, rt)
      else let (p, rt') = guest_bump_alloc rt c.ctx (pos n) in
        if p == 0 then (0, rt) else (
          p,
          put_cap rt' cap (Cap.alloc (record c { budget_remaining = c.budget_remaining - n })),
        )
]

-- 1 is `true`.
unfoldable pub fuelcap_burn : Runtime → Ptr → ℤ → Bool × Runtime
fuelcap_burn rt cap (negsuc _) = (false, rt)
fuelcap_burn rt cap (pos units) = elim (as_fuel (rt.caps cap)) [
  | none ↦ (false, rt)
  | some c ↦ if not c.live || (units == 0) || ltb c.units_remaining units then (false, rt) else (
    true,
    put_cap rt cap (Cap.fuel (record c { units_remaining = c.units_remaining - units })),
  )
]
