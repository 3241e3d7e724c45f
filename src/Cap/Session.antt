-- ===== src/Cap/Session.antt =====
-- Guest sessions (host/cap/fx_cap_runtime.c): begin, nested begin, end.
use fxlang.Prelude.{
  ℕ, zero, suc, Bool, true, false, Option, none, some, List, [], ◌∷◌, ◌++◌, ◌==◌, leb,
  if◌then◌else◌, Text, length, Ptr, Table, update, modify, ℤ, pos, negsuc, is_blank,
}
use fxlang.Cap.Path.{root_size, mint_root}
use fxlang.Cap.{Cap, Guest, Runtime, max_children, default_arena, put_guest, live_guest}

-- `calloc` has zeroed the context.
abbrev pub new_guest : (root : Text) (arena : Ptr) (arena_size : ℕ) (parent : Ptr) → Guest
new_guest root arena arena_size parent = record {
  root = root;
  arena = arena;
  arena_size = arena_size;
  arena_used = 0;
  fs_caps = [];
  out_caps = [];
  alloc_caps = [];
  fuel_caps = [];
  net_caps = [];
  parent = parent;
  children = [];
  live = true;
}

-- A size of 0 or less asks for the default.
abbrev pub arena_bytes_or_default : ℤ → ℕ
arena_bytes_or_default (pos n) = if n == 0 then default_arena else n
arena_bytes_or_default (negsuc n) = default_arena

-- The `root` field of a new session: empty if none is asked for, `none` if it does not fit.
abbrev pub session_root : Option Text → Option Text
session_root root = if is_blank root then some [] else mint_root root_size root

-- `fresh` and `arena` are what the two calls of `calloc` return.
unfoldable pub guest_begin : Runtime → (fresh arena : Ptr) → Option Text → ℤ → Ptr × Runtime
guest_begin rt fresh arena root arena_bytes =
    if fresh == 0 then (0, rt) else elim (session_root root) [
      | none ↦ (0, rt)
      | some r ↦ if arena == 0 then (0, rt) else (
        fresh,
        put_guest rt fresh (new_guest r arena (arena_bytes_or_default arena_bytes) 0),
      )
    ]

-- A blank root inherits the parent's.
abbrev pub nested_root : Guest → Option Text → Option Text
nested_root parent root = if is_blank root then some parent.root else root

unfoldable pub guest_begin_nested :
    Runtime → (parent_ctx : Ptr) → (fresh arena : Ptr) → Option Text → ℤ → Ptr × Runtime
guest_begin_nested rt parent_ctx fresh arena root arena_bytes =
    elim (live_guest (rt.guests parent_ctx)) [
      | none ↦ (0, rt)
      | some parent ↦
          if leb max_children (length parent.children)
          then (0, rt)
          else if fresh == 0
          then (0, rt)
          else elim (session_root (nested_root parent root)) [
            | none ↦ (0, rt)
            | some r ↦ if arena == 0 then (0, rt) else (
              fresh,
              put_guest
                  (put_guest rt fresh
                    (new_guest r arena (arena_bytes_or_default arena_bytes) parent_ctx))
                  parent_ctx (record parent { children = parent.children ++ (fresh ∷ []) }),
            )
          ]
    ]

unfoldable pub guest_is_live : Runtime → Ptr → Bool
guest_is_live rt ctx = elim (rt.guests ctx) [ none ↦ false | some g ↦ g.live ]

-- The last entry of a non-empty list, and the entries before it.
unfoldable pub last_of : Ptr → List Ptr → Ptr
last_of x [] = x
last_of x (y ∷ ys) = last_of y ys

unfoldable pub all_but_last : Ptr → List Ptr → List Ptr
all_but_last x [] = []
all_but_last x (y ∷ ys) = x ∷ all_but_last y ys

-- `children[i] = children[n - 1]` and `children_n--`, with `xs` the entries behind index `i`.
unfoldable pub last_first : List Ptr → List Ptr
unfolding last_of all_but_last
last_first [] = []
last_first (x ∷ xs) = last_of x xs ∷ all_but_last x xs

-- The loop of `guest_unlink_from_parent` over `children`: the first entry that is `p` is filled by
-- the last one, and the list gets shorter by one.
unfoldable pub remove_child : Ptr → List Ptr → List Ptr
unfolding last_first
remove_child p [] = []
remove_child p (x ∷ xs) = if x == p then last_first xs else x ∷ remove_child p xs

unfoldable pub unlink_from_parent : Table Guest → Ptr → Table Guest
unfolding remove_child
unlink_from_parent guests p = elim (guests p) [
  | none ↦ guests
  | some g ↦
      if g.parent == 0
      then guests
      else modify (modify guests g.parent (λ q. record q { children = remove_child p q.children }))
          p (λ q. record q { parent = 0 })
]

-- What the five loops of `fx_guest_end` write into a capability.
abbrev pub revoke : Cap → Cap
revoke (Cap.fs c) = Cap.fs (record c { live = false })
revoke (Cap.out c) = Cap.out (record c { live = false })
revoke (Cap.alloc c) = Cap.alloc (record c { live = false; ctx = 0; budget_remaining = 0 })
revoke (Cap.fuel c) = Cap.fuel (record c { live = false; ctx = 0; units_remaining = 0 })
revoke (Cap.net c) = Cap.net (record c { live = false })

unfoldable pub revoke_all : List Ptr → Table Cap → Table Cap
revoke_all [] caps = caps
revoke_all (p ∷ ps) caps = revoke_all ps (modify caps p revoke)

unfoldable pub revoke_session : Guest → Table Cap → Table Cap
revoke_session g caps = revoke_all g.net_caps (
    revoke_all g.fuel_caps
      (revoke_all g.alloc_caps (revoke_all g.out_caps (revoke_all g.fs_caps caps))))

abbrev pub tombstone : Guest → Guest
tombstone g = record g { arena = 0; arena_size = 0; arena_used = 0; live = false }

-- The rest of `fx_guest_end`, after the children.
unfoldable pub tear_down : Runtime → Ptr → Runtime
tear_down rt p =
    let guests = unlink_from_parent rt.guests p in
    elim (guests p) [
      | none ↦ rt
      | some g ↦ record {
        guests = update guests p (some (tombstone g));
        caps = revoke_session g rt.caps;
        last_text = none;
      }
    ]

-- `fx_guest_end`, which always returns 0, and its loop over the children, on fuel; `none` means
-- that the fuel ran out.
unfoldable mutual
  pub guest_end : ℕ → Runtime → Ptr → Option Runtime
  guest_end zero rt p = none
  guest_end (suc f) rt p = elim (live_guest (rt.guests p)) [
    | none ↦ some rt
    | some g ↦ elim (end_children f rt p) [ none ↦ none | some rt' ↦ some (tear_down rt' p) ]
  ]

  pub end_children : ℕ → Runtime → Ptr → Option Runtime
  end_children zero rt p = none
  end_children (suc f) rt p = elim (rt.guests p) [
    | none ↦ some rt
    | some g ↦ elim g.children [
      | [] ↦ some rt
      | child ∷ _ ↦ elim (child == 0) [
        | true ↦ some (put_guest rt p (record g { children = [] }))
        | false ↦ elim (guest_end f rt child) [ none ↦ none | some rt' ↦ end_children f rt' p ]
      ]
    ]
  ]
