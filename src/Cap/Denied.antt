-- ===== src/Cap/Denied.antt =====
-- A revoked capability denies every use of it, whatever its kind.
use fxlang.Prelude.{
  ℕ, ◌≡◌, refl, true, false, Option, none, some, [], arith, Option-cases, Ptr, Text, ℤ, pos, negsuc,
  has, inl, inr, ◌≤◌,
}
use fxlang.Cap.Path.{path_allowed}
use fxlang.Cap.{Runtime, as_fs, as_out}
use fxlang.Cap.Budget.{alloccap_alloc, fuelcap_burn}
use fxlang.Cap.Net.{netcap_allows}
use fxlang.Cap.Session.{guest_end}
use fxlang.Cap.FileIo.{Reading, Writing, io_cap_read_file, io_cap_write_file, cap_denied}
use fxlang.Cap.Invariant.{is_live_cap, owned_of, live_of, IsValid}
use fxlang.Cap.Invariant.Under.{Under}
use fxlang.Cap.End.{guest_end_revokes, Bounded, fuel_at}

-- Every use of the capability at `q` is refused and does nothing.
pub record Denies (rt : Runtime) (q : Ptr) : Type 0 where
  pub allocs : (n : ℤ) → alloccap_alloc rt q n ≡ (0, rt)
  pub burns : (n : ℤ) → fuelcap_burn rt q n ≡ (false, rt)
  pub reaches : (host : Option Text) (port : ℤ) → netcap_allows rt q host port ≡ false
  pub reads :
      (path : Option Text) (f : Reading)
      → ((io_cap_read_file rt q path f).0 ≡ cap_denied) × ((io_cap_read_file rt q path f).1 ≡ [])
  pub writes :
      (path content : Option Text) (w : Writing)
      → io_cap_write_file rt q path content w ≡ (cap_denied, [], [])

dead_path : (root : Text) (path : Option Text) → path_allowed root false path ≡ false
unfolding path_allowed
dead_path root none = refl
dead_path root (some path) = refl

dead_read :
    (rt : Runtime) (q : Ptr) (path : Option Text) (f : Reading)
    → is_live_cap (rt.caps q) ≡ false
    → ((io_cap_read_file rt q path f).0 ≡ cap_denied) × ((io_cap_read_file rt q path f).1 ≡ [])
unfolding io_cap_read_file
dead_read rt q none f dead = (refl, refl)
dead_read rt q (some path) f dead = elim (Option-cases (as_fs (rt.caps q))) [
  | inl e ↦ ground arith
  | inr (c, e) ↦ ground (arith, dead_path c.root (some path))
]

dead_write :
    (rt : Runtime) (q : Ptr) (path content : Option Text) (w : Writing)
    → is_live_cap (rt.caps q) ≡ false
    → io_cap_write_file rt q path content w ≡ (cap_denied, [], [])
unfolding io_cap_write_file
dead_write rt q none content w dead = refl
dead_write rt q (some path) content w dead = elim (Option-cases (as_out (rt.caps q))) [
  | inl e ↦ ground arith
  | inr (c, e) ↦ ground (arith, dead_path c.root (some path))
]

pub dead-Denies : (rt : Runtime) (q : Ptr) → is_live_cap (rt.caps q) ≡ false → Denies rt q
unfolding alloccap_alloc fuelcap_burn netcap_allows
dead-Denies rt q dead = record {
  allocs = elim [ pos n ↦ ground arith | negsuc n ↦ refl ];
  burns = elim [ pos n ↦ ground arith | negsuc n ↦ refl ];
  reaches = λ host port. ground arith;
  reads = λ path f. dead_read rt q path f dead;
  writes = λ path content w. dead_write rt q path content w dead;
}

-- After `fx_guest_end` for a live session of a valid runtime, with a bound on the depth and
-- enough fuel, every capability minted in the session or in a live session nested under it
-- refuses every use, whatever its kind; copies of its handle are the same address, and refuse
-- too.
pub guest_end-Denies :
    (depth : Ptr → ℕ) (owner : Ptr → Ptr) (f deepest : ℕ) (rt : Runtime) (p : Ptr)
    → IsValid depth owner rt
    → Bounded depth owner deepest rt
    → live_of (rt.guests p) ≡ true
    → fuel_at depth owner deepest p ≤ f
    → (rt' : Runtime) → guest_end f rt p ≡ some rt'
    → (x q : Ptr) → live_of (rt.guests x) ≡ true
    → Under rt.guests p x
    → has q (owned_of (rt.guests x)) ≡ true
    → Denies rt' q
guest_end-Denies depth owner f deepest rt p v b alive fuel rt' run x q was under mine =
    elim (guest_end_revokes depth owner f deepest rt p v b alive fuel rt' run x was q mine) [
      | inl h ↦ dead-Denies rt' q h.0
      | inr h ↦ absurd (h.1 under)
    ]
