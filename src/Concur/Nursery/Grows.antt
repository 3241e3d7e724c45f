-- ===== src/Concur/Nursery/Grows.antt =====
-- What a nursery (host/concur/fx_task_nursery.c) keeps while other threads use it.
use fxlang.Prelude.{
  ℕ, zero, suc, ◌≤◌, ◌<◌, ◌≡◌, refl, ◌∙◌, Bool, true, false, List, [], ◌∷◌, arith, get_or, set,
  length, length-set, get_or-set_self, get_or-set_ne, Ptr,
}
use fxlang.Concur.Nursery.{
  Slot, Nursery, Call, cancels, spawns, hard_max, blank, pending_below, perform, perform_all,
  mark_joined, spawn,
}

-- The slots are as many as the capacity, and those in use are the first of them.
pub record IsValid (n : Nursery) : Type 0 where
  pub whole : length n.slots ≡ n.capacity
  pub bounded : n.capacity ≤ hard_max
  pub fits : n.count ≤ n.capacity

pub pending-set :
    (slots : List Slot) (i j : ℕ) (s : Slot)
    → i ≤ j
    → pending_below (set slots j s) i ≡ pending_below slots i
pending-set slots zero j s below = refl
pending-set slots (suc i) j s below = ground (
  arith,
  get_or-set_ne slots {i = j} {j = i} s blank (omega arith),
  pending-set slots i j s (omega arith),
)

-- What the calls of other threads leave as it is.
pub record Grows (i : ℕ) (n m : Nursery) : Type 0 where
  pub valid : IsValid m
  pub live_same : m.live ≡ n.live
  pub capacity_same : m.capacity ≡ n.capacity
  pub more : n.count ≤ m.count
  pub settled : pending_below m.slots i ≡ pending_below n.slots i

spawn-Grows :
    (fn arg : Ptr) (created : Bool) (i : ℕ) (n : Nursery)
    → IsValid n
    → i ≤ n.count
    → Grows i n (spawn fn arg created n).1
spawn-Grows fn arg created i n valid below = record {
  valid = record {
    whole = ground (
      arith,
      length-set n.slots n.count (filled true),
      length-set n.slots n.count (filled false),
    );
    bounded = ground arith;
    fits = ground arith;
  };
  live_same = ground arith;
  capacity_same = ground arith;
  more = ground arith;
  settled = ground (
    arith,
    pending-set n.slots i n.count (filled true) below,
    pending-set n.slots i n.count (filled false) below,
  );
}
  where
    filled : Bool → Slot
    filled used = record { fn = fn; arg = arg; used = used; joined = false }

perform-Grows : (c : Call) (i : ℕ) (n : Nursery) → IsValid n → i ≤ n.count → Grows i n (perform c n)
perform-Grows cancels i n valid below = record {
  valid = record { whole = ground (arith); bounded = ground arith; fits = ground arith };
  live_same = ground arith;
  capacity_same = ground arith;
  more = ground arith;
  settled = ground arith;
}
perform-Grows (spawns fn arg created) i n valid below = spawn-Grows fn arg created i n valid below

pub perform_all-Grows :
    (cs : List Call) (i : ℕ) (n : Nursery) → IsValid n → i ≤ n.count → Grows i n (perform_all cs n)
perform_all-Grows [] i n valid below = record {
  valid = valid;
  live_same = refl;
  capacity_same = refl;
  more = omega arith;
  settled = refl;
}
perform_all-Grows (c ∷ cs) i n valid below =
    let one = perform-Grows c i n valid below in
    let rest = perform_all-Grows cs i (perform c n) one.valid (omega (arith, one.more)) in
    record {
      valid = rest.valid;
      live_same = rest.live_same ∙ one.live_same;
      capacity_same = rest.capacity_same ∙ one.capacity_same;
      more = omega (arith, one.more, rest.more);
      settled = rest.settled ∙ one.settled;
    }

-- Slot `i` is joined after the other threads' calls, and the slots before it were settled.
pub joined-Grows :
    (cs : List Call) (i : ℕ) (n : Nursery)
    → IsValid n
    → i < n.count
    → pending_below n.slots i ≡ 0
    → Grows 0 n (mark_joined i (perform_all cs n))
      × (pending_below (mark_joined i (perform_all cs n)).slots (suc i) ≡ 0)
joined-Grows cs i n valid below none_before =
    let g = perform_all-Grows cs i n valid (omega arith) in
    (
      record {
        valid = record {
          whole = length-set m.slots i _ ∙ g.valid.whole;
          bounded = g.valid.bounded;
          fits = g.valid.fits;
        };
        live_same = g.live_same;
        capacity_same = g.capacity_same;
        more = g.more;
        settled = refl;
      },
      ground (
        arith,
        pending-set m.slots i i joined_slot (omega arith),
        g.settled,
        get_or-set_self m.slots i joined_slot blank
            (omega (arith, g.more, g.valid.fits, g.valid.whole)),
      ),
    )
  where
    m : Nursery
    m = perform_all cs n

    joined_slot : Slot
    joined_slot = record (get_or m.slots i blank) { joined = true }

pub Grows-refl : (n : Nursery) → IsValid n → Grows 0 n n
Grows-refl n valid = record {
  valid = valid;
  live_same = refl;
  capacity_same = refl;
  more = omega arith;
  settled = refl;
}

pub Grows-trans : {n n' m : Nursery} → Grows 0 n n' → Grows 0 n' m → Grows 0 n m
Grows-trans g g' = record {
  valid = g'.valid;
  live_same = g'.live_same ∙ g.live_same;
  capacity_same = g'.capacity_same ∙ g.capacity_same;
  more = omega (arith, g.more, g'.more);
  settled = refl;
}
