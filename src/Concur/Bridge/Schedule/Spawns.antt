-- ===== src/Concur/Bridge/Schedule/Spawns.antt =====
-- A spawn keeps the invariant of a batch of store tasks (host/concur/fx_async_bridge.c).
use fxlang.Prelude.{
  ℕ, suc, ◌≡◌, ◌≢◌, ◌≤◌, ◌<◌, ◌∙◌, sym, ap, subst, Bool, true, false, ◌⊎◌, inl, inr, get_or, set,
  Ptr, arith, update, length-set, get_or-set_self, get_or-set_ne, ℕ_discrete,
}
use fxlang.Concur.Nursery.{Nursery, blank}
use fxlang.Concur.Nursery.Grows.{IsValid}
use fxlang.Concur.Bridge.{World}
use fxlang.Concur.Bridge.Tasks.{Job, IsJob, task_of, IsQueued, IsDone, added, spawned}
use fxlang.Concur.Bridge.Schedule.Underway.{InBatch, Underway}

module _ (n_h : Ptr) (job : ℕ → Job) (base total : ℕ) where
  module _ (is_job : (i : ℕ) → InBatch base total i → IsJob (job i))
      (ats : (i j : ℕ)
        → InBatch base total i
        → InBatch base total j
        → (job i).at ≡ (job j).at
        → i ≡ j)
      (slots : (i j : ℕ)
        → InBatch base total i
        → InBatch base total j
        → (job i).slot ≡ (job j).slot
        → i ≡ j)
      (handle : 0 < n_h) (start : World) (next : ℕ) (waits : ℕ → Bool) (n : Nursery) (w : World)
      (u : Underway n_h job base total start next waits n w) where
    added-IsValid : next < total → IsValid (added n (job next))
    added-IsValid more = record {
      whole = length-set n.slots n.count (task_of (job next)) ∙ u.valid.whole;
      bounded = u.valid.bounded;
      fits = omega (arith, u.counted, u.room);
    }

    spawned-IsQueued :
        (i : ℕ)
        → next < total
        → update waits next true i ≡ true
        → IsQueued n_h (spawned n_h n (job next) w) i (job i)
    spawned-IsQueued i more e = elim (ℕ_discrete next i) [
      | yes same ↦
          let here =
            get_or-set_self n.slots n.count (task_of (job next)) blank
              (omega (arith, u.valid.whole, u.counted, u.room)) in
          let index : n.count ≡ next = u.counted in
          subst (λ k. IsQueued n_h (spawned n_h n (job next) w) k (job k)) same
            (
              ground (
                arith,
                subst
                    (λ k.
                      get_or (set n.slots n.count (task_of (job next))) k blank
                      ≡ task_of (job next))
                    index here,
              ),
              ground arith,
            )
      | no other ↦
          let waiting : waits i ≡ true = ground (arith, e) in
          let (low, high) = u.spawned_only i waiting in
          let (task, waits_there) = u.queued i waiting in
          let far : (job next).at ≢ (job i).at =
            λ same. other (ats next i (u.from, more) (low, omega arith) same) in
          let kept =
            get_or-set_ne n.slots {i = n.count} {j = i} (task_of (job next)) blank
              (λ same. other (sym u.counted ∙ same)) in
          (ground (arith, kept, task, u.here), ground (arith, waits_there, far))
    ]

    spawned-IsDone :
        (i : ℕ)
        → next < total
        → base ≤ i
        → i < suc next
        → update waits next true i ≡ false
        → IsDone (spawned n_h n (job next) w) (job i)
    spawned-IsDone i more low high e =
        let other : next ≢ i = λ same. ground (arith, e, same) in
        let ran : waits i ≡ false = ground (arith, e) in
        let (value, freed) = u.done i low (omega (arith, other)) ran in
        let far : (job next).at ≢ (job i).at =
          λ same. other (ats next i (u.from, more) (low, omega arith) same) in
        (value, ground (arith, freed, far))

    spawned-same_args :
        (p : Ptr)
        → next < total
        → ((i : ℕ) × InBatch base total i × ((job i).at ≡ p))
          ⊎ ((spawned n_h n (job next) w).args p ≡ start.args p)
    spawned-same_args p more = elim (ℕ_discrete (job next).at p) [
      | yes same ↦ inl (next, (u.from, more), same)
      | no other ↦ elim (u.same_args p) [
        | inl there ↦ inl there
        | inr kept ↦ inr (ground (arith, other, kept))
      ]
    ]

    pub Underway-spawned :
        next < total
        → Underway n_h job base total start
            (suc next)
            (update waits next true)
            (added n (job next))
            (spawned n_h n (job next) w)
    Underway-spawned more = record {
      here = ground arith;
      valid = added-IsValid more;
      live = u.live;
      counted = ap suc u.counted;
      room = u.room;
      from = omega (arith, u.from);
      up_to = omega arith;
      spawned_only = λ i e. elim (ℕ_discrete next i) [
        | yes same ↦ (omega (arith, u.from), omega arith)
        | no other ↦
            let (low, high) = u.spawned_only i (ground (arith, e, other)) in (low, omega arith)
      ];
      queued = λ i e. spawned-IsQueued i more e;
      done = λ i low high e. spawned-IsDone i more low high e;
      there = λ i in_batch. u.there i in_batch;
      same_slots = λ s. u.same_slots s;
      same_args = λ p. spawned-same_args p more;
    }
