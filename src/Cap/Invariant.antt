-- ===== src/Cap/Invariant.antt =====
-- What holds of every state of the cap runtime (host/cap/fx_cap_runtime.c): the sessions form
-- trees, and each capability belongs to one session.
pub mod Children
pub mod Tree
pub mod Owned
pub mod Under
pub mod Minted
pub mod Steps
pub mod Frames
pub mod Begun
use fxlang.Prelude.{
  ℕ, suc, ◌≤◌, ◌≡◌, ◌≢◌, Bool, true, false, Option, none, some, List, [], length, has, IsDistinct,
  Ptr, Table,
}
use fxlang.Cap.{Cap, Guest, Runtime, max_children, is_live, owned}

-- The fields of a session at an address; where there is none, those of a dead one.
abbrev pub live_of : Option Guest → Bool
live_of none = false
live_of (some g) = g.live

abbrev pub parent_of : Option Guest → Ptr
parent_of none = 0
parent_of (some g) = g.parent

abbrev pub children_of : Option Guest → List Ptr
children_of none = []
children_of (some g) = g.children

abbrev pub owned_of : Option Guest → List Ptr
owned_of none = []
owned_of (some g) = owned g

abbrev pub is_live_cap : Option Cap → Bool
is_live_cap none = false
is_live_cap (some c) = is_live c

-- The parent and children pointers agree, join live sessions only, and go one level down at each
-- step (`depth` is a ghost: no field holds it).
pub record IsTree (depth : Ptr → ℕ) (guests : Table Guest) : Type 0 where
  pub null : guests 0 ≡ none
  pub child :
      (p c : Ptr)
      → has c (children_of (guests p)) ≡ true
      → (live_of (guests c) ≡ true) × (parent_of (guests c) ≡ p)
  pub up :
      (p : Ptr)
      → parent_of (guests p) ≢ 0
      → (live_of (guests (parent_of (guests p))) ≡ true)
        × (has p (children_of (guests (parent_of (guests p)))) ≡ true)
        × (depth p ≡ suc (depth (parent_of (guests p))))
  pub distinct : (p : Ptr) → IsDistinct (children_of (guests p))
  pub few : (p : Ptr) → length (children_of (guests p)) ≤ max_children
  pub dead :
      (p : Ptr)
      → live_of (guests p) ≡ false
      → (parent_of (guests p) ≡ 0) × (children_of (guests p) ≡ [])

-- Each capability of a session stands in memory, belongs to that session alone (`owner` is a ghost)
-- and is live exactly as long as the session; and a live AllocCap belongs to its `ctx`.
pub record IsOwned (owner : Ptr → Ptr) (guests : Table Guest) (caps : Table Cap) : Type 0 where
  pub null : caps 0 ≡ none
  pub held :
      (p q : Ptr)
      → has q (owned_of (guests p)) ≡ true
      → (owner q ≡ p) × (caps q ≢ none) × (is_live_cap (caps q) ≡ live_of (guests p))
  pub backed :
      (q : Ptr) (ctx : Ptr) (budget : ℕ)
      → caps q ≡ some (Cap.alloc (record { ctx = ctx; budget_remaining = budget; live = true }))
      → has q (owned_of (guests ctx)) ≡ true

pub record IsValid (depth : Ptr → ℕ) (owner : Ptr → Ptr) (rt : Runtime) : Type 0 where
  pub tree : IsTree depth rt.guests
  pub owning : IsOwned owner rt.guests rt.caps
