-- ===== src/Cap/End/Histories.antt =====
-- `fx_guest_end` (host/cap/fx_cap_runtime.c) in a history: whenever it returns, it leaves a valid
-- runtime, however deep the sessions are nested.
use fxlang.Prelude.{
  ℕ, zero, suc, ◌≡◌, refl, ◌≢◌, ap, subst, true, false, some, List, [], ◌∷◌, arith, Bool-cases, inl,
  inr, Option-cases, has, Ptr,
}
use fxlang.Cap.{Runtime}
use fxlang.Cap.Session.{guest_end, end_children}
use fxlang.Cap.Invariant.{live_of, children_of, IsValid}
use fxlang.Cap.Invariant.Steps.{IsSound}
use fxlang.Cap.End.Steps.{parent_survives, Ends, Empties, Ends-suc, Empties-suc, Empties-nil}

-- A call that returns has run its parts to the end.
end-runs_children :
    (f : ℕ) (rt r : Runtime) (p : Ptr)
    → live_of (rt.guests p) ≡ true
    → guest_end (suc f) rt p ≡ some r
    → (r' : Runtime) × (end_children f rt p ≡ some r')
unfolding guest_end
end-runs_children f rt r p alive run = elim (Option-cases (end_children f rt p)) [
  | inl e ↦ absurd (ground arith)
  | inr s ↦ s
]

children-run_end :
    (f : ℕ) (rt r : Runtime) (p c : Ptr) (cs : List Ptr)
    → children_of (rt.guests p) ≡ c ∷ cs
    → c ≢ 0
    → end_children (suc f) rt p ≡ some r
    → (r' : Runtime) × (guest_end f rt c ≡ some r') × (end_children f r' p ≡ some r)
unfolding end_children
children-run_end f rt r p c cs e nz run = elim (Option-cases (guest_end f rt c)) [
  | inl e' ↦ absurd (ground arith)
  | inr (r', e') ↦ (r', e', ground arith)
]

needs_fuel : (rt r : Runtime) (p : Ptr) → ¬ (guest_end 0 rt p ≡ some r)
unfolding guest_end
needs_fuel rt r p e = cc

children-need_fuel : (rt r : Runtime) (p : Ptr) → ¬ (end_children 0 rt p ≡ some r)
unfolding end_children
children-need_fuel rt r p e = cc

module _ (depth : Ptr → ℕ) (owner : Ptr → Ptr) where
  mutual
    guest_end-Ran :
        (f : ℕ) (rt r : Runtime) (p : Ptr)
        → IsValid depth owner rt
        → live_of (rt.guests p) ≡ true
        → guest_end f rt p ≡ some r
        → Ends depth owner f rt p
    guest_end-Ran zero rt r p v alive run = absurd (needs_fuel rt r p run)
    guest_end-Ran (suc f) rt r p v alive run =
        let (r', run') = end-runs_children f rt r p alive run in
        Ends-suc depth owner f rt p alive
          (end_children-Ran f rt r' p (children_of (rt.guests p)) refl v alive run')

    end_children-Ran :
        (f : ℕ) (rt r : Runtime) (p : Ptr) (cs : List Ptr)
        → children_of (rt.guests p) ≡ cs
        → IsValid depth owner rt
        → live_of (rt.guests p) ≡ true
        → end_children f rt p ≡ some r
        → Empties depth owner f rt p
    end_children-Ran zero rt r p cs e v alive run = absurd (children-need_fuel rt r p run)
    end_children-Ran (suc f) rt r p [] e v alive run = Empties-nil depth owner f rt p v alive e
    end_children-Ran (suc f) rt r p (c ∷ cs) e v alive run =
        let child : has c (children_of (rt.guests p)) ≡ true = ground arith in
        let (live_c, under) = v.tree.child p c child in
        let nz : c ≢ 0 = λ z. ground (arith, v.tree.child p c child, v.tree.null, ap rt.guests z) in
        let (r', ended, rest) = children-run_end f rt r p c cs e nz run in
        let round = guest_end-Ran f rt r' c v live_c ended in
        let (rt', again, left, gone) = round in
        let same : r' ≡ rt' = ground (arith, ended, again) in
        Empties-suc depth owner f rt c p cs v e round (
          end_children-Ran f rt' r p (children_of (rt'.guests p)) refl left.valid
            (parent_survives depth owner rt c p rt' v left child alive)
            (subst (λ s. end_children f s p ≡ some r) same rest))

dead_call :
    (f : ℕ) (rt r : Runtime) (p : Ptr)
    → live_of (rt.guests p) ≡ false
    → guest_end f rt p ≡ some r
    → rt ≡ r
unfolding guest_end
dead_call zero rt r p dead run = absurd (needs_fuel rt r p run)
dead_call (suc f) rt r p dead run = ground arith

-- A call of `fx_guest_end` that returns, on a live session or not, leaves a sound runtime.
pub guest_end-IsSound :
    (f : ℕ) (rt r : Runtime) (p : Ptr) → guest_end f rt p ≡ some r → IsSound rt → IsSound r
guest_end-IsSound f rt r p run (depth, owner, v) = elim (Bool-cases (live_of (rt.guests p))) [
  | inl alive ↦
      let (rt', again, left, gone) = guest_end-Ran depth owner f rt r p v alive run in
      let same : rt' ≡ r = ground (arith, run, again) in
      subst IsSound same (depth, owner, left.valid)
  | inr dead ↦ subst IsSound (dead_call f rt r p dead run) (depth, owner, v)
]
