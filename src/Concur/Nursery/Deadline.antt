-- ===== src/Concur/Nursery/Deadline.antt =====
-- The deadline of a timed join (host/concur/fx_task_nursery.c, `fx_nursery_join_one`).
use mathlib.Core.Option.{some-injective}
use fxlang.Prelude.{
  ℕ, zero, suc, ◌+◌, ◌-◌, ◌*◌, ◌/◌, ◌%◌, ◌<◌, ◌≤◌, ◌≡◌, ◌≢◌, ◌⊎◌, ◌∙◌, sym, ap, subst, inl, inr,
  Bool-cases, dec_lt, length-set, true, Option, none, some, List, leb, if◌then◌else◌, arith,
}
use fxlang.Concur.Nursery.{
  Nursery, Call, Wait, no_clock, exited, timed_out, nursery_ok, is_pending, fx_nursery_pending,
  perform_all, mark_joined, fx_nursery_join_one, join_loop, join_all_timeout,
}
use fxlang.Concur.Nursery.Grows.{IsValid, perform_all-Grows}
use fxlang.Concur.Nursery.Timed.{join_all_timeout_returns}

-- `struct timespec`, from the clock's reading and the uint32_t timeout.
pub record Timespec : Type 0 where
  pub tv_sec : ℕ
  pub tv_nsec : ℕ

unfoldable pub deadline : Timespec → (timeout_ms : ℕ) → Timespec
deadline now timeout_ms =
    let sec = now.tv_sec + timeout_ms / 1000 in
    let nsec = now.tv_nsec + timeout_ms % 1000 * 1000000 in
    if leb 1000000000 nsec
    then record { tv_sec = suc sec; tv_nsec = nsec - 1000000000 }
    else record { tv_sec = sec; tv_nsec = nsec }

abbrev pub nanoseconds : Timespec → ℕ
nanoseconds t = t.tv_sec * 1000000000 + t.tv_nsec

-- From a reading with less than a second of nanoseconds, the deadline is one too, and lies exactly
-- the timeout after the reading.
pub deadline_lem :
    (now : Timespec) (timeout_ms : ℕ)
    → now.tv_nsec < 1000000000
    → ((deadline now timeout_ms).tv_nsec < 1000000000)
      × (nanoseconds (deadline now timeout_ms) ≡ nanoseconds now + timeout_ms * 1000000)
unfolding deadline
deadline_lem now timeout_ms below = ground arith

-- How the wait for one task ends: `now` is what `clock_gettime` reads, and `ask` what
-- `pthread_timedjoin_np` answers under a deadline.
unfoldable pub timed_wait : (now : Option Timespec) → (timeout_ms : ℕ) → (Timespec → Wait) → Wait
unfolding deadline
timed_wait none timeout_ms ask = no_clock
timed_wait (some now) timeout_ms ask = ask (deadline now timeout_ms)

-- `fx_nursery_join_all_timeout` with its clock, which is read anew before each wait: `clock i` and
-- `ask i` are those of slot `i`.
unfoldable pub join_all_within :
    (timeout_ms : ℕ)
    → (clock : ℕ → Option Timespec) → (ask : ℕ → Timespec → Wait) → (ℕ → List Call)
    → Nursery
    → Option (ℕ × Nursery)
unfolding timed_wait join_all_timeout
join_all_within timeout_ms clock ask others =
    join_all_timeout others (λ i. timed_wait (clock i) timeout_ms (ask i))

join_loop-all :
    (others : ℕ → List Call) (waits : ℕ → Wait) (fuel i : ℕ) (n : Nursery)
    → ((j : ℕ) → j < n.capacity → waits j ≡ exited)
    → IsValid n
    → n.capacity < fuel + i
    → i ≤ n.count
    → (m : Nursery) × (join_loop true others waits fuel i n ≡ some (nursery_ok, m))
unfolding join_loop fx_nursery_join_one
join_loop-all others waits zero i n all valid enough below = absurd (omega (arith, valid.fits))
join_loop-all others waits (suc fuel) i n all valid enough below = elim (dec_lt i n.count) [
  | no done ↦ (n, ground arith)
  | yes more ↦ elim (Bool-cases (is_pending n.slots i)) [
    | inr skipped ↦
        let (m, e) =
          join_loop-all others waits fuel (suc i) n all valid (omega arith) (omega arith) in
        (m, ground (arith, e))
    | inl waited ↦
        let next : Nursery = mark_joined i (perform_all (others i) n) in
        let g = perform_all-Grows (others i) 0 n valid (omega arith) in
        let valid' : IsValid next = record {
          whole = length-set (perform_all (others i) n).slots i _ ∙ g.valid.whole;
          bounded = g.valid.bounded;
          fits = g.valid.fits;
        } in
        let (m, e) =
          join_loop-all others waits fuel (suc i) next
            (λ j less. all j (omega (arith, less, g.capacity_same))) valid'
            (omega (arith, g.capacity_same)) (omega (arith, more, g.more)) in
        (m, ground (arith, e, all i (omega (arith, valid.fits))))
  ]
]

-- How `pthread_timedjoin_np` answers for a task that ends at a time, in nanoseconds.
abbrev pub ends_at : ℕ → Timespec → Wait
ends_at end until = if leb end (nanoseconds until) then exited else timed_out

-- On a live, valid nursery, where the task of each slot ends one timeout after that of the slot before,
-- the first one timeout after `begin`, and the clock reads the end of the task before when a wait
-- begins: `fx_nursery_join_all_timeout` returns FX_NURSERY_OK with no task pending, for any number of
-- slots, whatever tasks other threads spawn in them and however often they request a cancel meanwhile.
pub join_all_within_anew :
    (timeout_ms begin : ℕ) (clock : ℕ → Timespec) (others : ℕ → List Call) (n : Nursery)
    → IsValid n
    → n.live ≡ true
    → ((i : ℕ) → i < n.capacity → (clock i).tv_nsec < 1000000000)
    → ((i : ℕ) → i < n.capacity → nanoseconds (clock i) ≡ begin + i * (timeout_ms * 1000000))
    → (m : Nursery) × (join_all_within timeout_ms
          (λ i. some (clock i))
          (λ i. ends_at (begin + suc i * (timeout_ms * 1000000)))
          others
          n
        ≡ some (nursery_ok, m))
      × (fx_nursery_pending (some m) ≡ 0)
unfolding join_all_within join_all_timeout timed_wait
join_all_within_anew timeout_ms begin clock others n valid live whole reads =
    let waits : ℕ → Wait =
      λ i. ends_at (begin + suc i * (timeout_ms * 1000000)) (deadline (clock i) timeout_ms) in
    let exits : (j : ℕ)
        → j < n.capacity
        → ends_at (begin + suc j * (timeout_ms * 1000000)) (deadline (clock j) timeout_ms)
          ≡ exited =
      λ j below.
        let (_, at) = deadline_lem (clock j) timeout_ms (whole j below) in
        let next : suc j * (timeout_ms * 1000000)
            ≡ j * (timeout_ms * 1000000) + timeout_ms * 1000000 =
          omega arith in
        ground (arith, at, reads j below, next) in
    let (m, e) =
      join_loop-all others waits (suc n.capacity) 0 n exits valid (omega arith) (omega arith) in
    let (rc, m', e', _, _, settled) = join_all_timeout_returns others waits n valid live in
    let here : join_all_timeout others waits n ≡ some (nursery_ok, m) = ground (arith, e) in
    let same : (rc, m') ≡ (nursery_ok, m) = some-injective _ _ (sym e' ∙ here) in
    (m, here, none_pending rc m' settled m (ap (λ r. r.0) same) (ap (λ r. r.1) same))
  where
    none_pending :
        (rc : ℕ) (m' : Nursery)
        → ((rc ≢ nursery_ok) ⊎ (fx_nursery_pending (some m') ≡ 0))
        → (m : Nursery) → rc ≡ nursery_ok
        → m' ≡ m
        → fx_nursery_pending (some m) ≡ 0
    none_pending rc m' (inl failed) m e same = absurd (failed e)
    none_pending rc m' (inr settled) m e same =
        subst (λ m. fx_nursery_pending (some m) ≡ 0) same settled
