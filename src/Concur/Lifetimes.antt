-- ===== src/Concur/Lifetimes.antt =====
-- The memory of channels, mailboxes and nurseries (host/concur/fx_chan.c, fx_mailbox.c and
-- fx_task_nursery.c, as compiled for POSIX): what their create and destroy functions allocate and
-- give back.
use fxlang.Prelude.{
  ◌≡◌, ◌≢◌, inl, inr, refl, Bool, true, false, not, ◌||◌, Option, none, some, arith, ◌==◌,
  if◌then◌else◌, Ptr, update, ℤ, pos, ltb_ℤ, ℕ_discrete, Bool-cases,
}
use fxlang.Concur.Nursery.{hard_max}

-- Which addresses are allocated.
abbrev pub Heap : Type 0
Heap = Ptr → Bool

-- The heap after `calloc` has answered with an address, or with 0.
abbrev pub calloc : Ptr → Heap → Heap
calloc p h = if p == 0 then h else update h p true

-- `free`; `none` where the address is not allocated.
abbrev pub free : Ptr → Heap → Option Heap
free p h = if p == 0 then some h else if h p then some (update h p false) else none

abbrev and_free : Ptr → Option Heap → Option Heap
and_free p none = none
and_free p (some h) = free p h

-- An object and the block that it points to: a channel with its buffer, a nursery with its slots.
pub record Owner : Type 0 where
  pub self : Ptr
  pub block : Ptr

abbrev failed : {A : Type 0} → Option Heap → Option (Option A × Heap)
failed none = none
failed (some h) = some (none, h)

-- The allocations that `fx_chan_create` and `fx_nursery_create_sized` make: the object, its block and
-- the lock, with what is given back when one of them fails.
unfoldable pub create_owner :
    (self block : Ptr) → (has_lock : Bool) → Heap → Option (Option Owner × Heap)
create_owner self block has_lock h =
    if self == 0
    then some (none, h)
    else if block == 0
    then failed (free self (calloc self h))
    else if not has_lock
    then failed (and_free self (free block (calloc block (calloc self h))))
    else some (some record { self = self; block = block }, calloc block (calloc self h))

unfoldable pub destroy_owner : Option Owner → Heap → Option Heap
destroy_owner none h = some h
destroy_owner (some o) h = and_free o.self (free o.block h)

unfoldable pub chan_create_heap :
    (chan buf : Ptr) → (has_lock : Bool) → Heap → Option (Option Owner × Heap)
unfolding create_owner
chan_create_heap chan buf has_lock h = create_owner chan buf has_lock h

unfoldable pub chan_destroy_heap : Option Owner → Heap → Option Heap
unfolding destroy_owner
chan_destroy_heap c h = destroy_owner c h

unfoldable pub nursery_create_heap :
    (max_tasks : ℤ)
    → (nursery slots : Ptr) → (has_lock : Bool) → Heap
    → Option (Option Owner × Heap)
unfolding create_owner
nursery_create_heap max_tasks nursery slots has_lock h =
    if ltb_ℤ max_tasks (pos 1) || ltb_ℤ (pos hard_max) max_tasks
    then some (none, h)
    else create_owner nursery slots has_lock h

-- The end of `fx_nursery_destroy`, after the shutdown.
unfoldable pub nursery_destroy_heap : Option Owner → Heap → Option Heap
unfolding destroy_owner
nursery_destroy_heap n h = destroy_owner n h

pub record Box : Type 0 where
  pub self : Ptr
  pub ch : Owner

abbrev boxed : (mb : Ptr) → Option (Option Owner × Heap) → Option (Option Box × Heap)
boxed mb none = none
boxed mb (some (none, h)) = failed (free mb h)
boxed mb (some (some c, h)) = some (some record { self = mb; ch = c }, h)

unfoldable pub mb_create_heap :
    (mb chan buf : Ptr) → (has_lock : Bool) → Heap → Option (Option Box × Heap)
unfolding chan_create_heap
mb_create_heap mb chan buf has_lock h =
    if mb == 0 then some (none, h) else boxed mb (chan_create_heap chan buf has_lock (calloc mb h))

unfoldable pub mb_destroy_heap : Option Box → Heap → Option Heap
unfolding chan_destroy_heap
mb_destroy_heap none h = some h
mb_destroy_heap (some m) h = and_free m.self (chan_destroy_heap (some m.ch) h)

-- A create ends and a destroy of what it returned ends, no address is given back that is not
-- allocated, and then the heap is as it was before.
abbrev pub IsBalanced :
    {A : Type 0} → Heap → Option (Option A × Heap) → (Option A → Heap → Option Heap) → Type 0
IsBalanced {A = A} h created destroy =
    (o : Option A) × (left : Heap) × (back : Heap) × (created ≡ some (o, left))
    × (destroy o left ≡ some back)
    × ((p : Ptr) → back p ≡ h p)

owner-IsBalanced :
    (self block : Ptr) (has_lock : Bool) (h : Heap)
    → h self ≡ false
    → h block ≡ false
    → self ≢ block
    → IsBalanced h (create_owner self block has_lock h) destroy_owner
unfolding create_owner destroy_owner
owner-IsBalanced self block has_lock h free_self free_block apart = elim (ℕ_discrete self 0) [
  | yes null ↦ (none, h, h, ground arith, refl, λ p. refl)
  | no given ↦ elim (ℕ_discrete block 0) [
    | yes null ↦ (
      none,
      update (calloc self h) self false,
      update (calloc self h) self false,
      ground arith,
      refl,
      λ p. ground (arith, free_self),
    )
    | no given_block ↦ elim (Bool-cases has_lock) [
      | inr refused ↦
          let all = calloc block (calloc self h) in
          (
            none,
            update (update all block false) self false,
            update (update all block false) self false,
            ground (arith, refused),
            refl,
            λ p. ground (arith, free_self, free_block),
          )
      | inl locked ↦
          let all = calloc block (calloc self h) in
          (
            some record { self = self; block = block },
            all,
            update (update all block false) self false,
            ground (arith, locked),
            ground arith,
            λ p. ground (arith, free_self, free_block),
          )
    ]
  ]
]

boxed-IsBalanced :
    (mb : Ptr) (h : Heap) (created : Option (Option Owner × Heap)) (o : Option Owner)
    (left back : Heap)
    → mb ≢ 0
    → h mb ≡ false
    → created ≡ some (o, left)
    → chan_destroy_heap o left ≡ some back
    → ((p : Ptr) → back p ≡ calloc mb h p)
    → IsBalanced h (boxed mb created) mb_destroy_heap
unfolding mb_destroy_heap chan_destroy_heap destroy_owner
boxed-IsBalanced mb h created none left back given free_mb made e same =
    let kept : left mb ≡ true = ground (arith, e, same mb) in
    (
      none,
      update left mb false,
      update left mb false,
      ground (arith, made, kept),
      refl,
      λ p. ground (arith, e, same p, free_mb),
    )
boxed-IsBalanced mb h created (some c) left back given free_mb made e same =
    let kept : back mb ≡ true = ground (arith, same mb) in
    (
      some record { self = mb; ch = c },
      left,
      update back mb false,
      ground (arith, made),
      ground (arith, e, kept),
      λ p. ground (arith, same p, free_mb),
    )

mb-IsBalanced :
    (mb chan buf : Ptr) (has_lock : Bool) (h : Heap)
    → h mb ≡ false
    → h chan ≡ false
    → h buf ≡ false
    → mb ≢ chan
    → mb ≢ buf
    → chan ≢ buf
    → IsBalanced h (mb_create_heap mb chan buf has_lock h) mb_destroy_heap
unfolding mb_create_heap chan_create_heap mb_destroy_heap chan_destroy_heap
mb-IsBalanced mb chan buf has_lock h free_mb free_chan free_buf apart apart' apart'' =
    elim (ℕ_discrete mb 0) [
      | yes null ↦ (none, h, h, ground arith, refl, λ p. refl)
      | no given ↦
          let (o, left, back, made, e, same) =
            owner-IsBalanced chan buf has_lock (calloc mb h) (ground arith) (ground arith)
              apart'' in
          let (o', left', back', made', e', same') =
            boxed-IsBalanced mb h (create_owner chan buf has_lock (calloc mb h)) o left back given
              free_mb made e same in
          (o', left', back', ground (arith, given, made'), e', same')
    ]

-- Whatever the allocator and the system answer, with addresses that are not allocated before and differ
-- from each other: for a channel, a nursery and a mailbox, the create function and a destroy of what
-- it returned give back exactly what they allocated, each address once. Where the create function
-- returns NULL, of which the destroy gives nothing back, it has given back everything itself.
pub create-IsBalanced :
    (one two three : Ptr) (has_lock : Bool) (max_tasks : ℤ) (h : Heap)
    → h one ≡ false
    → h two ≡ false
    → h three ≡ false
    → one ≢ two
    → one ≢ three
    → two ≢ three
    → IsBalanced h (chan_create_heap one two has_lock h) chan_destroy_heap
      × IsBalanced h (nursery_create_heap max_tasks one two has_lock h) nursery_destroy_heap
      × IsBalanced h (mb_create_heap one two three has_lock h) mb_destroy_heap
unfolding chan_create_heap chan_destroy_heap nursery_create_heap nursery_destroy_heap
create-IsBalanced one two three has_lock max_tasks h free_one free_two free_three apart apart'
      apart'' =
    (
      owner-IsBalanced one two has_lock h free_one free_two apart,
      elim (Bool-cases (ltb_ℤ max_tasks (pos 1) || ltb_ℤ (pos hard_max) max_tasks)) [
        | inl refused ↦ (none, h, h, ground (arith, refused), refl, λ p. refl)
        | inr sized ↦
            let (o, left, back, made, e, same) =
              owner-IsBalanced one two has_lock h free_one free_two apart in
            (o, left, back, ground (arith, sized, made), e, same)
      ],
      mb-IsBalanced one two three has_lock h free_one free_two free_three apart apart' apart'',
    )
