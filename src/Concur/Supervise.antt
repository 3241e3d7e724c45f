-- ===== src/Concur/Supervise.antt =====
-- Supervision policies (host/concur/fx_supervise.c): what a child's failure does to its nursery.
use fxlang.Prelude.{
  ℕ, ◌≡◌, true, not, ◌&&◌, ◌||◌, Option, none, some, arith, if◌then◌else◌, ℤ, pos, eq_ℤ,
}
use fxlang.Concur.Nursery.{Nursery, nursery_ok, nursery_err, fx_nursery_request_cancel}

abbrev one_for_one : ℤ
one_for_one = pos 1

abbrev one_for_all : ℤ
one_for_all = pos 2

abbrev rest_for_one : ℤ
rest_for_one = pos 3

abbrev escalate : ℤ
escalate = pos 4

unfoldable pub fx_supervise_normalize_policy : ℤ → ℤ
fx_supervise_normalize_policy policy =
    if eq_ℤ policy one_for_one
      || eq_ℤ policy one_for_all
      || eq_ℤ policy rest_for_one
      || eq_ℤ policy escalate
    then policy
    else one_for_one

-- The status, and the nursery that the call leaves.
unfoldable pub fx_supervise_apply : Option Nursery → (policy child_ok : ℤ) → ℕ × Option Nursery
unfolding fx_supervise_normalize_policy fx_nursery_request_cancel
fx_supervise_apply n policy child_ok =
    let p = fx_supervise_normalize_policy policy in
    if eq_ℤ child_ok (pos 0)
    then (nursery_ok, n)
    else if eq_ℤ p one_for_all || eq_ℤ p rest_for_one
    then elim n [ none ↦ (nursery_err, none) | some m ↦ fx_nursery_request_cancel (some m) ]
    else if eq_ℤ p escalate
    then (4, n)
    else (nursery_ok, n)

-- On a live nursery, exactly a failed child under ONE_FOR_ALL or REST_FOR_ONE sets the cancel flag,
-- nothing else of the nursery changes, and the status is 4 for a failed child under ESCALATE and
-- FX_NURSERY_OK otherwise; every policy that is none of the four does nothing.
pub fx_supervise_apply_lem :
    (n : Nursery) (policy child_ok : ℤ)
    → n.live ≡ true
    → fx_supervise_apply (some n) policy child_ok ≡ (
      if not (eq_ℤ child_ok (pos 0)) && eq_ℤ policy (pos 4) then 4 else 0,
      some (record n {
        cancel =
            n.cancel || not (eq_ℤ child_ok (pos 0)) && (eq_ℤ policy (pos 2) || eq_ℤ policy (pos 3));
      }),
    )
unfolding fx_supervise_apply fx_supervise_normalize_policy fx_nursery_request_cancel
fx_supervise_apply_lem n policy child_ok live = ground arith
