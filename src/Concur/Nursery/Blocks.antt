-- ===== src/Concur/Nursery/Blocks.antt =====
-- A join without a timeout on a task that does not end (host/concur/fx_task_nursery.c).
use fxlang.Prelude.{
  ℕ, zero, suc, ◌≤◌, ◌<◌, ◌≡◌, refl, ◌∙◌, ap, ◌⊎◌, inl, inr, Bool, true, false, none, some, List,
  [], ◌∷◌, arith, Bool-cases, dec_lt, get_or, get_or-set_ne,
}
use fxlang.Concur.Nursery.{
  Nursery, Slot, Call, cancels, spawns, blank, Wait, no_clock, exited, timed_out, refused,
  is_pending, nursery_ok, perform, perform_all, mark_joined, fx_nursery_join_one, join_loop,
  join_all_when,
}

-- A slot in use stays as it is.
record Stays (k : ℕ) (n m : Nursery) : Type 0 where
  same : get_or m.slots k blank ≡ get_or n.slots k blank
  used : k < m.count

perform-Stays : (c : Call) (k : ℕ) (n : Nursery) → k < n.count → Stays k n (perform c n)
perform-Stays cancels k n below = record { same = ground arith; used = ground arith }
perform-Stays (spawns fn arg created) k n below = record {
  same = ground (
    arith,
    get_or-set_ne n.slots {i = n.count} {j = k} (filled true) blank (omega arith),
    get_or-set_ne n.slots {i = n.count} {j = k} (filled false) blank (omega arith),
  );
  used = ground arith;
}
  where
    filled : Bool → Slot
    filled used = record { fn = fn; arg = arg; used = used; joined = false }

perform_all-Stays :
    (cs : List Call) (k : ℕ) (n : Nursery) → k < n.count → Stays k n (perform_all cs n)
perform_all-Stays [] k n below = record { same = refl; used = below }
perform_all-Stays (c ∷ cs) k n below =
    let one = perform-Stays c k n below in
    let rest = perform_all-Stays cs k (perform c n) one.used in
    record { same = rest.same ∙ one.same; used = rest.used }

-- After the join of an earlier slot, slot `k` is as pending as it was.
joined-Stays :
    (cs : List Call) (i k : ℕ) (n : Nursery)
    → i < k
    → k < n.count
    → Stays k n (mark_joined i (perform_all cs n))
joined-Stays cs i k n before below =
    let g = perform_all-Stays cs k n below in
    record {
      same = get_or-set_ne (perform_all cs n).slots {i = i} {j = k} _ blank (omega arith) ∙ g.same;
      used = g.used;
    }

blocked : (i : ℕ) (n : Nursery) (cs : List Call) → fx_nursery_join_one i n false cs timed_out ≡ none
unfolding fx_nursery_join_one
blocked i n cs = refl

-- A wait that comes back has joined its slot.
wait_or_none :
    (w : Wait) (i : ℕ) (n : Nursery) (cs : List Call)
    → (fx_nursery_join_one i n false cs w ≡ none)
      ⊎ (fx_nursery_join_one i n false cs w ≡ some (nursery_ok, mark_joined i (perform_all cs n)))
unfolding fx_nursery_join_one
wait_or_none no_clock i n cs = inr refl
wait_or_none exited i n cs = inr refl
wait_or_none timed_out i n cs = inl refl
wait_or_none refused i n cs = inr refl

join_loop-none :
    (others : ℕ → List Call) (waits : ℕ → Wait) (k fuel i : ℕ) (n : Nursery)
    → waits k ≡ timed_out
    → i ≤ k
    → k < n.count
    → is_pending n.slots k ≡ true
    → join_loop false others waits fuel i n ≡ none
unfolding join_loop
join_loop-none others waits k zero i n endless before below pending = refl
join_loop-none others waits k (suc fuel) i n endless before below pending = elim (dec_lt i k) [
  | no here ↦
      let at : i ≡ k = omega arith in
      ground (arith, blocked i n (others i), endless, ap waits at, ap (is_pending n.slots) at)
  | yes earlier ↦ elim (Bool-cases (is_pending n.slots i)) [
    | inr skipped ↦
        ground
          (arith, join_loop-none others waits k fuel (suc i) n endless (omega arith) below pending)
    | inl waited ↦
        let next : Nursery = mark_joined i (perform_all (others i) n) in
        let g = joined-Stays (others i) i k n earlier below in
        let rest =
          join_loop-none others waits k fuel (suc i) next endless (omega arith) g.used
            (ground (arith, g.same)) in
        elim (wait_or_none (waits i) i n (others i)) [
          | inl stuck ↦ ground (arith, stuck)
          | inr joined ↦ ground (arith, joined, rest)
        ]
  ]
]

-- While a task that is pending at the call does not end, `fx_nursery_join_all` does not return,
-- whatever tasks other threads spawn and however often they request a cancel.
pub join_all_when-none :
    (others : ℕ → List Call) (waits : ℕ → Wait) (k : ℕ) (n : Nursery)
    → n.live ≡ true
    → waits k ≡ timed_out
    → k < n.count
    → is_pending n.slots k ≡ true
    → join_all_when others waits n ≡ none
unfolding join_all_when
join_all_when-none others waits k n live endless below pending =
    ground (
      arith,
      join_loop-none others waits k (suc n.capacity) 0 n endless (omega arith) below pending,
    )
