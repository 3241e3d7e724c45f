-- ===== src/Cap/Budget/Arena.antt =====
-- Blocks from an arena: inside it, aligned, and apart from one another.
use fxlang.Prelude.{
  ℕ, ◌+◌, ◌-◌, ◌*◌, ◌/◌, ◌%◌, ◌^◌, ◌≤◌, ◌<◌, ◌≡◌, refl, ◌≢◌, inl, inr, Bool, true, false, ◌||◌,
  some, List, [], ◌∷◌, arith, ◌==◌, ltb, Bool-cases, if◌then◌else◌, Ptr, ℤ, pos, negsuc, pos_part,
}
use fxlang.Cap.{Guest, Runtime, put_guest}
use fxlang.Cap.Budget.{guest_alloc}

-- A live session with its arena, `used` bytes of which are taken. The size was an int64_t.
pub record HasArena (rt : Runtime) (ctx : Ptr) (arena size used : ℕ) : Type 0 where
  pub guest : Guest
  pub found : rt.guests ctx ≡ some guest
  pub alive : guest.live ≡ true
  pub base : guest.arena ≡ arena
  pub mapped : arena ≢ 0
  pub size_is : guest.arena_size ≡ size
  pub used_is : guest.arena_used ≡ used
  pub small : size < 2 ^ 63
  pub fits : used ≤ size

-- The blocks that a sequence of calls of `fx_guest_alloc` grants, with the final runtime.
unfoldable pub grants : Runtime → Ptr → List ℤ → List (ℕ × ℕ) × Runtime
grants rt ctx [] = ([], rt)
grants rt ctx (z ∷ zs) =
    let (p, rt') = guest_alloc rt ctx z in
    let (blocks, rt'') = grants rt' ctx zs in
    if p == 0 then (blocks, rt'') else ((p, pos_part z) ∷ blocks, rt'')

-- From `lo` on each block begins where the one before has ended, or later, at a distance from
-- `base` that is a multiple of 8, and the last ends by `hi`.
abbrev pub Stacked : (base lo hi : ℕ) → List (ℕ × ℕ) → Type 0
Stacked base lo hi [] = lo ≤ hi
Stacked base lo hi ((p, n) ∷ blocks) =
    (lo ≤ p) × ((p - base) % 8 ≡ 0) × Stacked base (p + n) hi blocks

-- In a live session with an arena below 2 ^ 63 bytes, `fx_guest_alloc` of n bytes returns the
-- arena plus its used bytes rounded up to a multiple of 8, and 0 exactly when n is 0 or the block
-- would end behind the arena.
pub guest_alloc_lem :
    (rt : Runtime) (ctx : Ptr) (arena size used n : ℕ)
    → HasArena rt ctx arena size used
    → let offset = (used + 7) / 8 * 8 in
      ((guest_alloc rt ctx (pos n)).0
        ≡ (if (n == 0) || ltb size (offset + n) then 0 else arena + offset))
unfolding guest_alloc
guest_alloc_lem rt ctx arena size used n h = ground arith

abbrev offset_at : ℕ → ℕ
offset_at used = (used + 7) / 8 * 8

abbrev refuses : (size used n : ℕ) → Bool
refuses size used n = (n == 0) || ltb size (offset_at used + n)

negative_refused : (rt : Runtime) (ctx : Ptr) (n : ℕ) → guest_alloc rt ctx (negsuc n) ≡ (0, rt)
unfolding guest_alloc
negative_refused rt ctx n = refl

refused :
    (rt : Runtime) (ctx : Ptr) (arena size used n : ℕ)
    → HasArena rt ctx arena size used
    → refuses size used n ≡ true
    → guest_alloc rt ctx (pos n) ≡ (0, rt)
unfolding guest_alloc
refused rt ctx arena size used n h r = ground arith

granted :
    (rt : Runtime) (ctx : Ptr) (arena size used n : ℕ) (h : HasArena rt ctx arena size used)
    → refuses size used n ≡ false
    → guest_alloc rt ctx (pos n) ≡ (
      arena + offset_at used,
      put_guest rt ctx (record (h.guest) { arena_used = offset_at used + n }),
    )
unfolding guest_alloc
granted rt ctx arena size used n h r = ground arith

HasArena-granted :
    (rt : Runtime) (ctx : Ptr) (arena size used n : ℕ) (h : HasArena rt ctx arena size used)
    → refuses size used n ≡ false
    → HasArena
        (put_guest rt ctx (record (h.guest) { arena_used = offset_at used + n }))
        ctx
        arena
        size
        (offset_at used + n)
HasArena-granted rt ctx arena size used n h r = record {
  guest = record (h.guest) { arena_used = offset_at used + n };
  found = ground arith;
  alive = h.alive;
  base = h.base;
  mapped = h.mapped;
  size_is = h.size_is;
  used_is = refl;
  small = h.small;
  fits = ground arith;
}

Stacked-lower :
    (base lo lo' hi : ℕ) (bs : List (ℕ × ℕ))
    → lo' ≤ lo
    → Stacked base lo hi bs
    → Stacked base lo' hi bs
Stacked-lower base lo lo' hi [] le s = omega arith
Stacked-lower base lo lo' hi ((p, n) ∷ bs) le s = (omega arith, s.1, s.2)

-- In a live session with an arena below 2 ^ 63 bytes, whatever is asked for, the blocks that
-- `fx_guest_alloc` grants lie in the free part of the arena one behind the other, each at a
-- multiple of 8 from the arena's start.
pub grants-Stacked :
    (ns : List ℤ) (rt : Runtime) (ctx : Ptr) (arena size used : ℕ)
    → HasArena rt ctx arena size used
    → Stacked arena (arena + used) (arena + size) (grants rt ctx ns).0
unfolding grants
grants-Stacked [] rt ctx arena size used h = omega (arith, h.fits)
grants-Stacked (negsuc n ∷ ns) rt ctx arena size used h =
    rw (negative_refused rt ctx n) (grants-Stacked ns rt ctx arena size used h)
grants-Stacked (pos n ∷ ns) rt ctx arena size used h = elim (Bool-cases (refuses size used n)) [
  | inl r ↦ rw (refused rt ctx arena size used n h r) (grants-Stacked ns rt ctx arena size used h)
  | inr r ↦
      let rest =
        grants-Stacked ns _ ctx arena size (offset_at used + n)
          (HasArena-granted rt ctx arena size used n h r) in
      let nz : (arena + offset_at used == 0) ≡ false = ground (arith, h.mapped) in
      rw (granted rt ctx arena size used n h r, nz)
        (
          omega arith,
          omega arith,
          Stacked-lower arena _ (arena + offset_at used + n) _ _ (omega arith) rest,
        )
]
