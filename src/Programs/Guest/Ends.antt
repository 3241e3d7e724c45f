-- ===== src/Programs/Guest/Ends.antt =====
-- What the program leaves behind, and which files its guest opens.
use Prim.Native.String.{String}
use fxlang.Prelude.{
  ◌≡◌, ◌||◌, refl, ap, ◌∙◌, inl, inr, true, false, none, some, List, [], ◌∷◌, arith, Bool-cases,
  modify, Text, All, codes, ℤ, pos, ◌==◌, Ptr, if◌then◌else◌,
}
use fxlang.Cap.Path.{mint_root}
use fxlang.Cap.{Runtime, Cap, Guest, put_guest, put_cap}
use fxlang.Cap.Mint.{guest_mint_fscap, fscap_mint, mint_root_or_default}
use fxlang.Cap.Session.{
  guest_begin, guest_end, guest_is_live, new_guest, revoke, revoke_all, revoke_session, tear_down,
  unlink_from_parent,
}
use fxlang.Cap.Invariant.{is_live_cap}
use fxlang.Cap.Denied.{Denies, dead-Denies}
use fxlang.Edge.Cli.{Result, fx_cli_fail, return_result}
use fxlang.Programs.Guest.Reads.{Inside, perform-SameCaps, perform-Inside}
use fxlang.Programs.Guest.{Activity, perform, at_start, Exit, exit, end_with, root_dir, main}

-- No session is live, and no capability answers.
abbrev pub IsOver : Runtime → Type 0
IsOver rt = ((x : Ptr) → guest_is_live rt x ≡ false) × ((q : Ptr) → Denies rt q)

-- The program's one session, which is live, and its FsCaps.
abbrev session : (arena : Ptr) → List Ptr → Guest
session arena ks = record (new_guest root_dir arena 4096 0) { fs_caps = ks }

-- The session stands at `p`, there is no other, and every live capability is one of its own.
abbrev IsAlone : (p arena : Ptr) → List Ptr → Runtime → Type 0
IsAlone p arena ks rt =
    ((x : Ptr) → rt.guests x ≡ (if p == x then some (session arena ks) else none))
    × ((q : Ptr) → is_live_cap (revoke_all ks rt.caps q) ≡ false)

tear_down-caps :
    (rt : Runtime) (p : Ptr) (g : Guest)
    → rt.guests p ≡ some g
    → (g.parent == 0) ≡ true
    → (tear_down rt p).caps ≡ revoke_session g rt.caps
unfolding tear_down unlink_from_parent
tear_down-caps rt p g h root = ground arith

torn_down-IsOver :
    (p arena : Ptr) (ks : List Ptr) (rt : Runtime) → IsAlone p arena ks rt → IsOver (tear_down rt p)
unfolding tear_down guest_is_live revoke_session revoke_all unlink_from_parent
torn_down-IsOver p arena ks rt (only, covers) =
    let here : rt.guests p ≡ some (session arena ks) = ground (arith, only p) in
    let caps : (tear_down rt p).caps ≡ revoke_all ks rt.caps =
      tear_down-caps rt p (session arena ks) here refl in
    (
      (λ x. ground (arith, only p, only x)),
      (λ q. dead-Denies _ q (ap (λ t. is_live_cap (t q)) caps ∙ covers q)),
    )

end_with-IsOver :
    (p arena : Ptr) (ks : List Ptr) (told : Text × ℤ) (opened : List Text) (rt : Runtime)
    → IsAlone p arena ks rt
    → (end_with told opened rt p ≡ some (exit told opened (tear_down rt p)))
      × IsOver (tear_down rt p)
unfolding guest_end
end_with-IsOver p arena ks told opened rt a =
    (ground (arith, a.0 p), torn_down-IsOver p arena ks rt a)

-- The two calls before the guest runs.
abbrev opened_session : (fresh arena : Ptr) → Runtime
opened_session fresh arena = put_guest at_start fresh (session arena [])

abbrev with_cap : (fresh arena k : Ptr) → Runtime
with_cap fresh arena k =
    put_guest
      (put_cap (opened_session fresh arena) k (Cap.fs (record { root = root_dir; live = true })))
      fresh (session arena (k ∷ []))

guest_begin-at_start :
    (fresh arena : Ptr)
    → guest_begin at_start fresh arena (some root_dir) (pos 4096) ≡ (
        if (fresh == 0) || (arena == 0) then (0, at_start) else (fresh, opened_session fresh arena))
unfolding guest_begin mint_root
guest_begin-at_start fresh arena = ground arith

mint_in_session :
    (fresh arena k : Ptr)
    → guest_mint_fscap (opened_session fresh arena) fresh k (some [])
      ≡ (if k == 0 then (0, opened_session fresh arena) else (k, with_cap fresh arena k))
unfolding guest_mint_fscap mint_root fscap_mint mint_root_or_default
mint_in_session fresh arena k = ground arith

opened_session-IsAlone : (p arena : Ptr) → IsAlone p arena [] (opened_session p arena)
unfolding revoke_all
opened_session-IsAlone p arena = ((λ x. refl), (λ q. refl))

performed-IsAlone :
    (p arena k : Ptr) (a : Activity) → IsAlone p arena (k ∷ []) (perform k a (with_cap p arena k)).2
unfolding revoke_all
performed-IsAlone p arena k a =
    let (guests, caps) = perform-SameCaps k a (with_cap p arena k) in
    (
      (λ x. ap (λ t. t x) guests ∙ ground arith),
      (λ q. ap (λ t. is_live_cap (modify t k revoke q)) caps ∙ ground arith),
    )

module _ (decimal : ℤ → Text) (fresh arena k : Ptr) (activity : Activity) where
  abbrev fails_with : String → Text × ℤ
  fails_with msg = fx_cli_fail (codes "guest") (codes msg) (pos 1)

  -- The guest's run with its FsCap.
  abbrev ran : List Text × Result × Runtime
  ran = perform k activity (with_cap fresh arena k)

  main-no_session :
      ((fresh == 0) || (arena == 0)) ≡ true
      → main decimal fresh arena k activity
        ≡ some (exit (fails_with "guest_begin failed") [] at_start)
  unfolding main
  main-no_session h = ground (arith, guest_begin-at_start fresh arena)

  main-no_cap :
      ((fresh == 0) || (arena == 0)) ≡ false
      → (k == 0) ≡ true
      → main decimal fresh arena k activity
        ≡ end_with (fails_with "mint_fscap failed") [] (opened_session fresh arena) fresh
  unfolding main
  main-no_cap h e = ground (arith, guest_begin-at_start fresh arena, mint_in_session fresh arena k)

  main-ran :
      ((fresh == 0) || (arena == 0)) ≡ false
      → (k == 0) ≡ false
      → main decimal fresh arena k activity
        ≡ end_with (return_result decimal ran.1 (codes "guest")) ran.0 ran.2 fresh
  unfolding main
  main-ran h e = ground (arith, guest_begin-at_start fresh arena, mint_in_session fresh arena k)

-- Whatever the allocations give and whatever the guest does with its FsCap, the program ends; no
-- session is live then and every capability refuses every use; and every file that the guest has
-- opened lies below ".", with no component ".." in its path.
pub guest_main_ends :
    (decimal : ℤ → Text) (fresh arena fresh_cap : Ptr) (activity : Activity)
    → (e : Exit) × (main decimal fresh arena fresh_cap activity ≡ some e)
      × IsOver e.left
      × All (Inside root_dir) e.opened
unfolding guest_is_live
guest_main_ends decimal fresh arena k activity = elim (Bool-cases ((fresh == 0) || (arena == 0))) [
  | inl h ↦ (
    _,
    main-no_session decimal fresh arena k activity h,
    ((λ x. refl), (λ q. dead-Denies _ q refl)),
    tt,
  )
  | inr h ↦ elim (Bool-cases (k == 0)) [
    | inl e ↦
        let (ended, over) =
          end_with-IsOver fresh arena [] _ [] _ (opened_session-IsAlone fresh arena) in
        (_, main-no_cap decimal fresh arena k activity h e ∙ ended, over, tt)
    | inr e ↦
        let rt = with_cap fresh arena k in
        let files =
          perform-Inside k activity rt (record { root = root_dir; live = true }) (ground arith)
            (λ d. cc) in
        let (ended, over) =
          end_with-IsOver fresh arena (k ∷ []) _ _ _ (performed-IsAlone fresh arena k activity) in
        (_, main-ran decimal fresh arena k activity h e ∙ ended, over, files)
  ]
]
