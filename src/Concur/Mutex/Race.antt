-- ===== src/Concur/Mutex/Race.antt =====
-- Two threads that create a mutex at the same time (host/concur/fx_mutex.c): `fx_mutex_create` reads
-- and writes `g_used` with no lock.
use fxlang.Prelude.{
  ℕ, zero, suc, ◌+◌, ◌≤◌, ◌≡◌, ◌≢◌, refl, sym, ap, ◌∙◌, Bool, true, false, Option, none, some, List,
  [], ◌∷◌, ◌++◌, arith, ltb, if◌then◌else◌, Bool-cases, inl, inr,
}
use fxlang.Concur.Mutex.{Mutexes, mark, first_free, occupy, fx_mutex_create}

-- Where a thread is in `fx_mutex_create`: about to look at `g_used[i]`, about to initialise and mark the
-- slot that it found free, or back with a handle.
pub data Creating : Type 0 where
  looks : (i : ℕ) → Creating
  takes : (i : ℕ) → Creating
  made : (handle : ℕ) → Creating

-- One access of a thread to the table, when the system gives the lock.
unfoldable pub create_step : Mutexes → Creating → Mutexes × Creating
create_step t (looks i) =
    (t, if ltb i 64 then (if t.used i then looks (suc i) else takes i) else made 0)
create_step t (takes i) = (mark t i true, made (suc i))
create_step t (made handle) = (t, made handle)

pub record Both : Type 0 where
  pub table : Mutexes
  pub one : Creating
  pub other : Creating

-- The accesses of two threads in some order; `true` is the first thread's.
unfoldable pub create_both : List Bool → Both → Both
unfolding create_step
create_both [] s = s
create_both (true ∷ order) s =
    let (t, one) = create_step s.table s.one in
    create_both order (record { table = t; one = one; other = s.other })
create_both (false ∷ order) s =
    let (t, other) = create_step s.table s.other in
    create_both order (record { table = t; one = s.one; other = other })

Searches : Mutexes → (i k : ℕ) → Type 0
Searches t i k =
    (first : List Bool) × (second : List Bool) × ((rest : List Bool) (other : Creating)
      → create_both (first ++ rest) (record { table = t; one = looks i; other = other })
        ≡ create_both rest (record { table = t; one = takes k; other = other }))
    × ((rest : List Bool) (one : Creating)
        → create_both (second ++ rest) (record { table = t; one = one; other = looks i })
          ≡ create_both rest (record { table = t; one = one; other = takes k }))

search :
    (t : Mutexes) (left i k : ℕ)
    → i + left ≤ 64
    → first_free t.used left i ≡ some k
    → Searches t i k
unfolding first_free Searches create_both create_step
search t zero i k small e = cc
search t (suc left) i k small e = elim (Bool-cases (t.used i)) [
  | inr free ↦
      (true ∷ [], false ∷ [], (λ rest other. ground (arith, e)), (λ rest one. ground (arith, e)))
  | inl busy ↦
      let (first, second, f, g) = search t left (suc i) k (omega arith) (ground (arith, e)) in
      (
        true ∷ first,
        false ∷ second,
        (λ rest other. ground (arith, f rest other)),
        (λ rest one. ground (arith, g rest one)),
      )
]

created-some :
    (t : Mutexes) (o : Option ℕ)
    → (occupy true t o).0 ≢ 0
    → (k : ℕ) × (o ≡ some k) × (occupy true t o ≡ (suc k, mark t k true))
created-some t none some_handle = absurd (some_handle refl)
created-some t (some k) some_handle = (k, refl, refl)

-- For every table in which `fx_mutex_create` returns a handle other than 0: the accesses of one thread
-- alone do what `fx_mutex_create` does, and there is an order of the accesses of two threads in which
-- both return this same handle.
pub fx_mutex_create_race :
    (t : Mutexes)
    → (fx_mutex_create true t).0 ≢ 0
    → (alone : List Bool) × (order : List Bool) × (table : Mutexes) × (create_both alone
          (record { table = t; one = looks 0; other = looks 0 })
        ≡ record {
          table = (fx_mutex_create true t).1;
          one = made (fx_mutex_create true t).0;
          other = looks 0;
        })
      × (create_both order (record { table = t; one = looks 0; other = looks 0 }) ≡ record {
        table = table;
        one = made (fx_mutex_create true t).0;
        other = made (fx_mutex_create true t).0;
      })
unfolding fx_mutex_create Searches create_both create_step
fx_mutex_create_race t some_handle =
    let (k, free, e) = created-some t (first_free t.used 64 0) some_handle in
    let (first, second, f, g) = search t 64 0 k (omega arith) free in
    let both = f (second ++ (true ∷ false ∷ [])) (looks 0) ∙ g (true ∷ false ∷ []) (takes k) in
    (
      first ++ (true ∷ []),
      first ++ (second ++ (true ∷ false ∷ [])),
      mark (mark t k true) k true,
      f (true ∷ []) (looks 0)
          ∙ ap (λ (o : ℕ × Mutexes). record { table = o.1; one = made o.0; other = looks 0 })
              (sym e),
      both
          ∙ ap
              (λ (o : ℕ × Mutexes). record {
                table = mark (mark t k true) k true;
                one = made o.0;
                other = made o.0;
              })
              (sym e),
    )
