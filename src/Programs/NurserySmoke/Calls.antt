-- ===== src/Programs/NurserySmoke/Calls.antt =====
-- What the calls of the program (examples/concur_nursery_smoke/host.c) on its nurseries keep, and how
-- a part of a run that returns is put together from them.
use Prim.Native.String.{String}
use fxlang.Edge.Cli.{fx_cli_fail}
use fxlang.Prelude.{
  ℕ, zero, suc, ◌≡◌, ◌+◌, refl, sym, subst, ◌∙◌, Bool, true, false, some, List, [], ◌∷◌, arith,
  Option, none, Bool-cases, ◌⊎◌, inl, inr, All, Text, ℤ, pos, replicate, if◌then◌else◌, ltb,
  length-replicate, Ptr, ◌==◌, ◌≤◌,
}
use fxlang.Concur.Nursery.{
  Nursery, Wait, blank, hard_max, fx_nursery_pending, fx_nursery_create_sized, spawn, spawns,
  request_cancel, join_all, join_all_timeout, shutdown, nursery_ok,
}
use fxlang.Concur.Nursery.Grows.{IsValid, perform_all-Grows}
use fxlang.Concur.Nursery.Join.{join_all_settles}
use fxlang.Concur.Nursery.Timed.{join_all_timeout_returns}
use fxlang.Concur.Nursery.Shutdown.{joins_settle, shutdown_after_joins, destroy_settles}
use fxlang.Programs.NurserySmoke.Driver.{Seen, passed, failed, free_and, require, after, join}
use fxlang.Programs.NurserySmoke.{store_fn, fill, task_spin_until_cancel, spun}

abbrev pub IsQuiet : Nursery → Type 0
IsQuiet n = fx_nursery_pending (some n) ≡ 0

-- The run returns; it has passed in silence or its code is 1; and no task was pending in a nursery
-- that it freed.
abbrev pub Ends : Option Seen → Type 0
Ends o =
    (told : Text × ℤ) × (freed : List Nursery) × (o ≡ some (told, freed))
    × ((told ≡ passed) ⊎ (told.1 ≡ pos 1))
    × All IsQuiet freed

-- A nursery between two calls: once it is dead, no task is left.
abbrev pub IsSound : Nursery → Type 0
IsSound n = IsValid n × (n.live ≡ false → IsQuiet n)

pub free_and-Ends :
    (n : Nursery) (freed : List Nursery) (told : Text × ℤ)
    → IsSound n
    → All IsQuiet freed
    → (told ≡ passed) ⊎ (told.1 ≡ pos 1)
    → Ends (free_and n freed told)
unfolding free_and
free_and-Ends n freed told (valid, dead) quiet h =
    let (m, e, settled) = destroy_settles [] (λ i. []) n valid dead in
    (told, m ∷ freed, ground (arith, e), h, (settled, quiet))

pub failed-code : (msg : String) → (failed msg).1 ≡ pos 1
unfolding fx_cli_fail
failed-code msg = refl

pub require-Ends :
    (ok : Bool) (msg : String) (n : Nursery) (freed : List Nursery) (rest : Option Seen)
    → IsSound n
    → All IsQuiet freed
    → Ends rest
    → Ends (require ok msg n freed rest)
unfolding require free_and
require-Ends true msg n freed rest s quiet h = h
require-Ends false msg n freed rest s quiet h =
    free_and-Ends n freed (failed msg) s quiet (inr (failed-code msg))

-- A call that returns and leaves a sound nursery.
abbrev pub Returns : Option (ℕ × Nursery) → Type 0
Returns o = (rc : ℕ) × (m : Nursery) × (o ≡ some (rc, m)) × IsSound m

pub after-Ends :
    (o : Option (ℕ × Nursery)) (k : ℕ → Nursery → Option Seen)
    → Returns o
    → ((rc : ℕ) (m : Nursery) → IsSound m → Ends (k rc m))
    → Ends (after o k)
unfolding after
after-Ends o k (rc, m, e, s) h = subst (λ r. Ends (after r k)) (sym e) (h rc m s)

live-IsSound : (n : Nursery) → IsValid n → n.live ≡ true → IsSound n
live-IsSound n valid live = (valid, λ dead. absurd (ground arith))

pub join_all-Returns : (n : Nursery) → IsSound n → Returns (join_all (λ i. []) n)
unfolding join_all
join_all-Returns n (valid, dead) = elim (Bool-cases n.live) [
  | inl live ↦
      let (m, e, valid_m, live_m, settled) = join_all_settles (λ i. []) n valid live in
      (nursery_ok, m, e, live-IsSound m valid_m live_m)
  | inr gone ↦ (3, n, ground arith, (valid, dead))
]

pub shutdown-Returns : (n : Nursery) → IsSound n → Returns (shutdown [] (λ i. []) [] n)
unfolding shutdown
shutdown-Returns n (valid, dead) = elim (Bool-cases n.live) [
  | inl live ↦
      let (m, e, valid_m, live_m, settled) = joins_settle [] (λ i. []) n valid live in
      let done : Nursery = record m { live = false } in
      (
        nursery_ok,
        done,
        shutdown_after_joins [] (λ i. []) [] n m live e,
        (
          record { whole = valid_m.whole; bounded = valid_m.bounded; fits = valid_m.fits },
          λ _. settled,
        ),
      )
  | inr gone ↦ (3, n, ground arith, (valid, dead))
]

pub join_all_timeout-Returns :
    (n : Nursery) (waits : ℕ → Wait) → IsSound n → Returns (join_all_timeout (λ i. []) waits n)
unfolding join_all_timeout
join_all_timeout-Returns n waits (valid, dead) = elim (Bool-cases n.live) [
  | inl live ↦
      let (rc, m, e, valid_m, live_m, settled) =
        join_all_timeout_returns (λ i. []) waits n valid live in
      (rc, m, e, live-IsSound m valid_m live_m)
  | inr gone ↦ (3, n, ground arith, (valid, dead))
]

pub spawn-IsSound :
    (fn arg : Ptr) (created : Bool) (n : Nursery) → IsSound n → IsSound (spawn fn arg created n).1
spawn-IsSound fn arg created n (valid, dead) =
    let g = perform_all-Grows (spawns fn arg created ∷ []) 0 n valid (omega arith) in
    elim (Bool-cases n.live) [
      | inl live ↦ live-IsSound _ g.valid (g.live_same ∙ live)
      | inr gone ↦
          let same : (spawn fn arg created n).1 ≡ n = ground arith in
          subst IsSound (sym same) (valid, dead)
    ]

pub request_cancel-IsSound : (n : Nursery) → IsSound n → IsSound (request_cancel n).1
request_cancel-IsSound n (valid, dead) = elim (Bool-cases n.live) [
  | inl live ↦
      let same : (request_cancel n).1 ≡ record n { cancel = true } = ground arith in
      subst IsSound (sym same) (
        live-IsSound _ (record { whole = valid.whole; bounded = valid.bounded; fits = valid.fits })
          live)
  | inr gone ↦
      let same : (request_cancel n).1 ≡ n = ground arith in subst IsSound (sym same) (valid, dead)
]

pub fill-IsSound :
    (created : ℕ → Bool) (k i : ℕ) (n : Nursery) → IsSound n → IsSound (fill created k i n).1
unfolding fill
fill-IsSound created zero i n s = s
fill-IsSound created (suc k) i n s =
    let next : Nursery = (spawn store_fn 1 (created i) n).1 in
    let sound : IsSound next = spawn-IsSound store_fn 1 (created i) n s in
    elim (Bool-cases ((spawn store_fn 1 (created i) n).0 == nursery_ok)) [
      | inl e ↦
          let on : (fill created (suc k) i n).1 ≡ (fill created k (suc i) next).1 = rw e refl in
          subst IsSound (sym on) (fill-IsSound created k (suc i) next sound)
      | inr e ↦
          let off : (fill created (suc k) i n).1 ≡ next = rw e refl in subst IsSound (sym off) sound
    ]

-- A new nursery for `k` tasks.
abbrev pub new : ℕ → Nursery
new k = record { live = true; cancel = false; count = 0; capacity = k; slots = replicate k blank }

created-new :
    (k : ℕ) (a b c : Bool)
    → (fx_nursery_create_sized (pos k) a b c ≡ none)
      ⊎ (fx_nursery_create_sized (pos k) a b c ≡ some (new k))
unfolding fx_nursery_create_sized
created-new k a b c = ground arith

pub new-IsSound : (k : ℕ) → k ≤ hard_max → IsSound (new k)
new-IsSound k h =
    live-IsSound (new k)
      (record { whole = length-replicate k blank; bounded = h; fits = omega arith }) refl

-- A run of its own nursery, with what is returned if there is none.
abbrev pub with_new : Option Nursery → Option Seen → (Nursery → Option Seen) → Option Seen
with_new o missing rest = elim o [ none ↦ missing | some n ↦ rest n ]

pub with_new-Ends :
    (k : ℕ) (a b c : Bool) (missing : Option Seen) (rest : Nursery → Option Seen)
    → Ends missing
    → Ends (rest (new k))
    → Ends (with_new (fx_nursery_create_sized (pos k) a b c) missing rest)
with_new-Ends k a b c missing rest h h' = elim (created-new k a b c) [
  | inl e ↦ subst (λ o. Ends (with_new o missing rest)) (sym e) h
  | inr e ↦ subst (λ o. Ends (with_new o missing rest)) (sym e) h'
]

pub join-Ends :
    (n : Nursery) (k : ℕ → Nursery → Option Seen)
    → IsSound n
    → ((rc : ℕ) (m : Nursery) → IsSound m → Ends (k rc m))
    → Ends (join n k)
unfolding join after
join-Ends n k s h = after-Ends _ k (join_all-Returns n s) h

pub fails-Ends :
    (msg : String) (freed : List Nursery) → All IsQuiet freed → Ends (some (failed msg, freed))
fails-Ends msg freed quiet = (failed msg, freed, refl, inr (failed-code msg), quiet)

pub passes-Ends :
    (n : Nursery) (freed : List Nursery)
    → IsSound n
    → All IsQuiet freed
    → Ends (free_and n freed passed)
passes-Ends n freed s quiet = free_and-Ends n freed passed s quiet (inl refl)

-- The polling task ends, at its first poll behind the early ones if not before.
spin_ends :
    (running cancelled : Nursery) (early d i : ℕ)
    → cancelled.cancel ≡ true
    → early ≡ i + d
    → task_spin_until_cancel (λ j. if ltb j early then running else cancelled) (suc d) i ≡ some 42
unfolding task_spin_until_cancel
spin_ends running cancelled early zero i c e = ground arith
spin_ends running cancelled early (suc d) i c e =
    ground (arith, spin_ends running cancelled early d (suc i) c)

pub spun-done :
    (running cancelled : Nursery) (early : ℕ)
    → cancelled.cancel ≡ true
    → spun early running cancelled ≡ some 42
spun-done running cancelled early c = spin_ends running cancelled early early 0 c (omega arith)

-- A cancel is noted on a nursery that is new but for one call of `fx_nursery_spawn`.
pub request_cancel-spawn :
    (fn arg : Ptr) (created : Bool) (n : Nursery)
    → n.live ≡ true
    → (request_cancel (spawn fn arg created n).1).1.cancel ≡ true
request_cancel-spawn fn arg created n live = ground arith
