-- ===== src/Concur/Bridge/Schedule/Runs.antt =====
-- The run of a task keeps the invariant of a batch of store tasks (host/concur/fx_async_bridge.c).
use fxlang.Prelude.{
  ℕ, ◌≡◌, ◌≢◌, ◌≤◌, ◌<◌, subst, Bool, true, false, ◌⊎◌, inl, inr, some, ℤ, Ptr, arith, update,
  ℕ_discrete,
}
use fxlang.Concur.Nursery.{Nursery}
use fxlang.Concur.Bridge.{World}
use fxlang.Concur.Bridge.Tasks.{Job, IsJob, IsQueued, IsDone, stored}
use fxlang.Concur.Bridge.Schedule.Underway.{InBatch, Underway}

module _ (n_h : Ptr) (job : ℕ → Job) (base total : ℕ) where
  module _ (is_job : (i : ℕ) → InBatch base total i → IsJob (job i))
      (ats : (i j : ℕ)
        → InBatch base total i
        → InBatch base total j
        → (job i).at ≡ (job j).at
        → i ≡ j)
      (slots : (i j : ℕ)
        → InBatch base total i
        → InBatch base total j
        → (job i).slot ≡ (job j).slot
        → i ≡ j)
      (handle : 0 < n_h) (start : World) (next : ℕ) (waits : ℕ → Bool) (n : Nursery) (w : World)
      (u : Underway n_h job base total start next waits n w) where
    stored-IsQueued :
        (i k : ℕ)
        → waits i ≡ true
        → update waits i false k ≡ true
        → IsQueued n_h (stored (job i) w) k (job k)
    stored-IsQueued i k waiting e =
        let other : i ≢ k = λ same. ground (arith, e, same) in
        let waiting' : waits k ≡ true = ground (arith, e) in
        let (low, high) = u.spawned_only i waiting in
        let (low', high') = u.spawned_only k waiting' in
        let (task, waits_there) = u.queued k waiting' in
        let far : (job i).at ≢ (job k).at = λ same.
          other (ats i k (low, omega (arith, u.up_to)) (low', omega (arith, u.up_to)) same) in
        (task, ground (arith, waits_there, far))

    stored-IsDone :
        (i k : ℕ)
        → waits i ≡ true
        → base ≤ k
        → k < next
        → update waits i false k ≡ false
        → IsDone (stored (job i) w) (job k)
    stored-IsDone i k waiting low high e =
        let (low_i, high_i) = u.spawned_only i waiting in
        let (old, there) = u.there i (low_i, omega (arith, u.up_to)) in
        elim (ℕ_discrete i k) [
          | yes same ↦
              subst (λ k. IsDone (stored (job i) w) (job k)) same
                (ground (arith, there), ground arith)
          | no other ↦
              let (value, freed) = u.done k low high (ground (arith, e, other)) in
              let far : (job i).at ≢ (job k).at = λ same.
                other
                  (ats i k (low_i, omega (arith, u.up_to)) (low, omega (arith, u.up_to)) same) in
              let apart : (job i).slot ≢ (job k).slot = λ same.
                other
                  (slots i k (low_i, omega (arith, u.up_to)) (low, omega (arith, u.up_to)) same) in
              (ground (arith, value, apart), ground (arith, freed, far))
        ]

    stored-there :
        (i k : ℕ)
        → InBatch base total k
        → (old : ℤ) × ((stored (job i) w).slots (job k).slot ≡ some old)
    stored-there i k in_batch =
        let (old, there) = u.there k in_batch in
        elim (ℕ_discrete (job i).slot (job k).slot) [
          | yes same ↦ ((job i).value, ground (arith, same, there))
          | no other ↦ (old, ground (arith, other, there))
        ]

    stored-same_slots :
        (i : ℕ) (s : Ptr)
        → InBatch base total i
        → ((k : ℕ) × InBatch base total k × ((job k).slot ≡ s))
          ⊎ ((stored (job i) w).slots s ≡ start.slots s)
    stored-same_slots i s in_batch = elim (ℕ_discrete (job i).slot s) [
      | yes same ↦ inl (i, in_batch, same)
      | no other ↦ elim (u.same_slots s) [
        | inl there ↦ inl there
        | inr kept ↦ inr (ground (arith, other, kept))
      ]
    ]

    stored-same_args :
        (i : ℕ) (p : Ptr)
        → InBatch base total i
        → ((k : ℕ) × InBatch base total k × ((job k).at ≡ p))
          ⊎ ((stored (job i) w).args p ≡ start.args p)
    stored-same_args i p in_batch = elim (ℕ_discrete (job i).at p) [
      | yes same ↦ inl (i, in_batch, same)
      | no other ↦ elim (u.same_args p) [
        | inl there ↦ inl there
        | inr kept ↦ inr (ground (arith, other, kept))
      ]
    ]

    pub Underway-stored :
        (i : ℕ)
        → waits i ≡ true
        → Underway n_h job base total start next (update waits i false) n (stored (job i) w)
    Underway-stored i waiting =
        let (low, high) = u.spawned_only i waiting in
        record {
          here = u.here;
          valid = u.valid;
          live = u.live;
          counted = u.counted;
          room = u.room;
          from = u.from;
          up_to = u.up_to;
          spawned_only = λ k e. u.spawned_only k (ground (arith, e));
          queued = λ k e. stored-IsQueued i k waiting e;
          done = λ k low high e. stored-IsDone i k waiting low high e;
          there = λ k in_batch. stored-there i k in_batch;
          same_slots = λ s. stored-same_slots i s (low, omega (arith, u.up_to));
          same_args = λ p. stored-same_args i p (low, omega (arith, u.up_to));
        }
