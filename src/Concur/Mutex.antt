-- ===== src/Concur/Mutex.antt =====
-- The process's mutexes (host/concur/fx_mutex.c): a table of 64 slots behind handles from 1 on.
pub mod Race
use fxlang.Prelude.{
  ℕ, zero, suc, ◌+◌, ◌-◌, ◌≤◌, ◌<◌, ◌≡◌, refl, sym, ap, subst, ◌∙◌, ◌≢◌, ◌⊎◌, Bool, true, false,
  not, ◌||◌, Option, none, some, arith, ℕ_discrete, dec_lt, if◌then◌else◌, ℤ, pos, negsuc, pos_part,
  ltb_ℤ, update, Bool-cases, inl, inr,
}

abbrev mutex_slots : ℕ
mutex_slots = 64

-- `g_used` and the `alive` fields of `g_slots`.
pub record Mutexes : Type 0 where
  pub used : ℕ → Bool
  pub alive : ℕ → Bool

-- `g_slots[i].alive = b; g_used[i] = b`
abbrev pub mark : Mutexes → ℕ → Bool → Mutexes
mark t i b = record { used = update t.used i b; alive = update t.alive i b }

-- The index of the slot behind a handle, if it has one.
unfoldable pub slot_mut : Mutexes → ℤ → Option ℕ
slot_mut t id =
    if ltb_ℤ id (pos 1) || ltb_ℤ (pos mutex_slots) id
    then none
    else if not (t.used (pos_part id - 1)) || not (t.alive (pos_part id - 1))
    then none
    else some (pos_part id - 1)

-- The loop of `fx_mutex_create`, with `left` slots still to look at: the index of the first free one.
unfoldable pub first_free : (ℕ → Bool) → (left i : ℕ) → Option ℕ
first_free used zero i = none
first_free used (suc left) i = elim (used i) [
  | false ↦ some i
  | true ↦ first_free used left (suc i)
]

-- What `fx_mutex_create` does with the free slot that it found, if any; `has_lock` says whether the
-- initialisation of the slot's lock succeeds.
abbrev pub occupy : (has_lock : Bool) → Mutexes → Option ℕ → ℕ × Mutexes
occupy has_lock t none = (0, t)
occupy false t (some i) = (0, t)
occupy true t (some i) = (suc i, mark t i true)

unfoldable pub fx_mutex_create : (has_lock : Bool) → Mutexes → ℕ × Mutexes
unfolding first_free
fx_mutex_create has_lock t = occupy has_lock t (first_free t.used mutex_slots 0)

-- `taken` says whether the system's lock is taken; the call waits for it and changes no slot.
unfoldable pub fx_mutex_lock : (taken : Bool) → Mutexes → ℤ → ℕ
unfolding slot_mut
fx_mutex_lock taken t handle = elim (slot_mut t handle) [
  | none ↦ 1
  | some i ↦ if not taken then 1 else 0
]

unfoldable pub fx_mutex_unlock : (given_back : Bool) → Mutexes → ℤ → ℕ
unfolding slot_mut
fx_mutex_unlock given_back t handle = elim (slot_mut t handle) [
  | none ↦ 1
  | some i ↦ if not given_back then 1 else 0
]

unfoldable pub fx_mutex_destroy : Mutexes → ℤ → ℕ × Mutexes
fx_mutex_destroy t handle =
    let i : ℕ = pos_part handle - 1 in
    if ltb_ℤ handle (pos 1) || ltb_ℤ (pos mutex_slots) handle
    then (1, t)
    else if not (t.used i)
    then (1, t)
    else (0, mark t i false)

first_free-some :
    (used : ℕ → Bool) (left i k : ℕ)
    → first_free used left i ≡ some k
    → (used k ≡ false) × (i ≤ k) × (k < i + left)
unfolding first_free
first_free-some used zero i k e = cc
first_free-some used (suc left) i k e = elim (Bool-cases (used i)) [
  | inr free ↦ ground arith
  | inl busy ↦ ground (arith, first_free-some used left (suc i) k (ground arith))
]

first_free-none :
    (used : ℕ → Bool) (left i k : ℕ)
    → first_free used left i ≡ none
    → i ≤ k
    → k < i + left
    → used k ≡ true
unfolding first_free
first_free-none used zero i k e low high = absurd (omega arith)
first_free-none used (suc left) i k e low high = elim (ℕ_discrete i k) [
  | yes same ↦ elim (Bool-cases (used k)) [ inl busy ↦ busy | inr free ↦ ground arith ]
  | no differ ↦ first_free-none used left (suc i) k (ground arith) (omega arith) (omega arith)
]

slot_mut-mark_self :
    (t : Mutexes) (i : ℕ) → i < 64 → slot_mut (mark t i true) (pos (suc i)) ≡ some i
unfolding slot_mut
slot_mut-mark_self t i below = ground arith

slot_mut-mark_ne :
    (t : Mutexes) (i : ℕ) (b : Bool) (h : ℤ)
    → h ≢ pos (suc i)
    → slot_mut (mark t i b) h ≡ slot_mut t h
unfolding slot_mut
slot_mut-mark_ne t i b (negsuc n) differ = ground arith
slot_mut-mark_ne t i b (pos zero) differ = ground arith
slot_mut-mark_ne t i b (pos (suc n)) differ =
    ground (arith, (λ (e : i ≡ n). differ (sym (ap (λ i. pos (suc i)) e))))

slot_mut-mark_cases :
    (t : Mutexes) (i : ℕ) (b : Bool) (h : ℤ)
    → (h ≡ pos (suc i)) ⊎ (slot_mut (mark t i b) h ≡ slot_mut t h)
slot_mut-mark_cases t i b (negsuc n) = inr (slot_mut-mark_ne t i b (negsuc n) (λ e. cc))
slot_mut-mark_cases t i b (pos n) = elim (ℕ_discrete n (suc i)) [
  | yes same ↦ inl (ap pos same)
  | no differ ↦ inr (slot_mut-mark_ne t i b (pos n) (λ e. differ (ap pos_part e)))
]

-- What is known of a handle before and after `fx_mutex_create` returned it.
abbrev pub IsFresh : Mutexes → ℕ × Mutexes → Type 0
IsFresh t (h, t') =
    (slot_mut t (pos h) ≡ none)
    × (slot_mut t' (pos h) ≡ some (h - 1))
    × ((other : ℤ) → (other ≡ pos h) ⊎ (slot_mut t' other ≡ slot_mut t other))

mark-IsFresh : (t : Mutexes) (i : ℕ) → t.used i ≡ false → i < 64 → IsFresh t (suc i, mark t i true)
unfolding slot_mut
mark-IsFresh t i free below = (ground arith, ground arith, slot_mut-mark_cases t i true)

occupy-IsFresh :
    (has_lock : Bool) (t : Mutexes) (o : Option ℕ)
    → o ≡ first_free t.used 64 0
    → (occupy has_lock t o).0 ≢ 0
    → IsFresh t (occupy has_lock t o)
occupy-IsFresh has_lock t none e some_handle = absurd (some_handle refl)
occupy-IsFresh false t (some i) e some_handle = absurd (some_handle refl)
occupy-IsFresh true t (some i) e some_handle =
    let (free, low, high) = first_free-some t.used 64 0 i (sym e) in
    mark-IsFresh t i free (omega arith)

fx_mutex_create-IsFresh :
    (t : Mutexes) (has_lock : Bool)
    → (fx_mutex_create has_lock t).0 ≢ 0
    → IsFresh t (fx_mutex_create has_lock t)
unfolding fx_mutex_create
fx_mutex_create-IsFresh t has_lock = occupy-IsFresh has_lock t _ refl

occupy-none : (t : Mutexes) (o : Option ℕ) → (occupy true t o).0 ≡ 0 → o ≡ none
occupy-none t none e = refl
occupy-none t (some i) e = absurd (omega arith)

fx_mutex_create_full :
    (t : Mutexes) (i : ℕ) → (fx_mutex_create true t).0 ≡ 0 → i < 64 → t.used i ≡ true
unfolding fx_mutex_create
fx_mutex_create_full t i e below =
    first_free-none t.used 64 0 i (occupy-none t _ e) (omega arith) below

-- `fx_mutex_create` returns a handle that had no mutex before and has one afterwards, and what the
-- other handles stand for is as it was; or it returns 0, and then the system refused a lock or all 64
-- slots are in use.
pub fx_mutex_create_lem :
    (t : Mutexes) (has_lock : Bool)
    → IsFresh t (fx_mutex_create has_lock t)
      ⊎ (((fx_mutex_create has_lock t).0 ≡ 0)
          × ((has_lock ≡ false) ⊎ ((i : ℕ) → (64 ≤ i) ⊎ (t.used i ≡ true))))
fx_mutex_create_lem t has_lock = elim (ℕ_discrete (fx_mutex_create has_lock t).0 0) [
  | no made ↦ inl (fx_mutex_create-IsFresh t has_lock made)
  | yes none_made ↦ inr (none_made, why has_lock none_made)
]
  where
    why :
        (lock : Bool)
        → (fx_mutex_create lock t).0 ≡ 0
        → (lock ≡ false) ⊎ ((i : ℕ) → (64 ≤ i) ⊎ (t.used i ≡ true))
    why false e = inl refl
    why true e = inr λ i. elim (dec_lt i 64) [
      | yes below ↦ inr (fx_mutex_create_full t i e below)
      | no beyond ↦ inl (omega arith)
    ]

-- What is known of a handle after `fx_mutex_destroy` destroyed its mutex.
abbrev pub IsGone : ℤ → Mutexes → Mutexes → Type 0
IsGone h t t' =
    ((taken : Bool) → fx_mutex_lock taken t' h ≡ 1)
    × ((fx_mutex_destroy t' h).0 ≡ 1)
    × ((other : ℤ) → (other ≡ h) ⊎ (slot_mut t' other ≡ slot_mut t other))

mark-IsGone : (t : Mutexes) (i : ℕ) → IsGone (pos (suc i)) t (mark t i false)
unfolding fx_mutex_destroy fx_mutex_lock slot_mut
mark-IsGone t i = ((λ taken. ground arith), ground arith, slot_mut-mark_cases t i false)

destroy-mark :
    (t : Mutexes) (i : ℕ)
    → (fx_mutex_destroy t (pos (suc i))).0 ≡ 0
    → (fx_mutex_destroy t (pos (suc i))).1 ≡ mark t (suc i - 1) false
unfolding fx_mutex_destroy
destroy-mark t i e = ground arith

destroy_only : (t : Mutexes) (n : ℕ) → (fx_mutex_destroy t (negsuc n)).0 ≡ 1
unfolding fx_mutex_destroy
destroy_only t n = ground arith

-- After `fx_mutex_destroy` of a handle returned 0, locking the handle fails, and so does
-- destroying it again; the other handles stand for what they stood for.
pub fx_mutex_destroy-IsGone :
    (t : Mutexes) (h : ℤ) → (fx_mutex_destroy t h).0 ≡ 0 → IsGone h t (fx_mutex_destroy t h).1
unfolding fx_mutex_destroy
fx_mutex_destroy-IsGone t (negsuc n) e = absurd (omega (arith, destroy_only t n))
fx_mutex_destroy-IsGone t (pos zero) e = absurd (omega arith)
fx_mutex_destroy-IsGone t (pos (suc i)) e =
    let same : mark t i false ≡ mark t (suc i - 1) false = ap (λ i. mark t i false) (omega arith) in
    subst (IsGone (pos (suc i)) t) (same ∙ sym (destroy-mark t i e)) (mark-IsGone t i)
