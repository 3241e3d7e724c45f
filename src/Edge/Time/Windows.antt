-- ===== src/Edge/Time/Windows.antt =====
-- The clock and the sleep (host/std_time/ref.c), as they are compiled for Windows.
use fxlang.Prelude.{
  ℕ, suc, ◌+◌, ◌-◌, ◌*◌, ◌/◌, ◌%◌, ◌^◌, ◌<◌, ◌≡◌, inl, inr, Option, none, some, arith,
  if◌then◌else◌, ltb, ℤ, pos, negsuc, pos_part, neg_part, leb_ℤ, map_option, Bool-cases,
}
use fxlang.Edge.Time.{fx_time_now_ms, fx_time_sleep_ms}

-- FILETIME: its two words of 32 bits.
pub record FileTime : Type 0 where
  pub low : ℕ
  pub high : ℕ

-- The conversion of a uint64_t to int64_t.
abbrev pub signed64 : ℕ → ℤ
signed64 w = if ltb w (2 ^ 63) then pos w else negsuc (2 ^ 64 - 1 - w)

-- `u.QuadPart`, in units of 100 ns since 1601.
abbrev pub ticks : FileTime → ℕ
ticks ft = ft.high * 2 ^ 32 + ft.low

unfoldable pub fx_time_now_ms_windows : FileTime → ℤ
fx_time_now_ms_windows ft = signed64 ((ticks ft / 10000 + (2 ^ 64 - 11644473600000)) % 2 ^ 64)

-- What `Sleep` is called with, if it is.
unfoldable pub fx_time_sleep_ms_windows : ℤ → Option ℕ
fx_time_sleep_ms_windows ms = if leb_ℤ ms (pos 0) then none else some (pos_part ms)

-- 1970, in units of 100 ns since 1601.
abbrev pub epoch : ℕ
epoch = 116444736000000000

-- 10000 units are a millisecond.
ms_after :
    (t s ns : ℕ)
    → t ≡ epoch + s * 10000000 + ns / 100
    → t / 10000 ≡ 11644473600000 + (s * 1000 + ns / 1000000)
ms_after t s ns e = omega arith

ms_before :
    (t n ns : ℕ)
    → t + suc n * 10000000 ≡ epoch + ns / 100
    → t / 10000 + suc n * 1000 ≡ 11644473600000 + ns / 1000000
ms_before t n ns e = omega arith

ms_small : (ns : ℕ) → ns < 1000000000 → ns / 1000000 < 1000
ms_small ns h = omega arith

ticks-lt :
    (ft : FileTime) → ft.low < 2 ^ 32 → ft.high < 2 ^ 32 → ticks ft / 10000 < 1844674407370956
ticks-lt ft low high = omega arith

now_at :
    (ft : FileTime) (m : ℕ)
    → m < 1844674407370956
    → ticks ft / 10000 ≡ 11644473600000 + m
    → fx_time_now_ms_windows ft ≡ pos m
unfolding fx_time_now_ms_windows
now_at ft m small e =
    let w : (ticks ft / 10000 + (2 ^ 64 - 11644473600000)) % 2 ^ 64 ≡ m = omega arith in
    ground (arith, w)

now_before :
    (ft : FileTime) (k : ℕ)
    → ticks ft / 10000 + suc k ≡ 11644473600000
    → fx_time_now_ms_windows ft ≡ negsuc k
unfolding fx_time_now_ms_windows
now_before ft k e =
    let w : (ticks ft / 10000 + (2 ^ 64 - 11644473600000)) % 2 ^ 64 ≡ 2 ^ 64 - suc k =
      omega arith in
    ground (arith, w)

now_agrees :
    (ft : FileTime) (sec : ℤ) (nsec : ℕ)
    → ft.low < 2 ^ 32
    → ft.high < 2 ^ 32
    → nsec < 1000000000
    → ticks ft + neg_part sec * 10000000 ≡ epoch + pos_part sec * 10000000 + nsec / 100
    → fx_time_now_ms_windows ft ≡ fx_time_now_ms (some (record { tv_sec = sec; tv_nsec = nsec }))
unfolding fx_time_now_ms
now_agrees ft (pos s) ns low high small same =
    let e = ms_after (ticks ft) s ns (omega (arith, same)) in
    now_at ft (s * 1000 + ns / 1000000) (omega (arith, e, ticks-lt ft low high)) e
now_agrees ft (negsuc n) ns low high small same =
    let e = ms_before (ticks ft) n ns (omega (arith, same)) in
    now_before ft (suc n * 1000 - ns / 1000000 - 1) (omega (arith, e, ms_small ns small))

sleep_agrees :
    (ms : ℤ)
    → fx_time_sleep_ms_windows ms
      ≡ map_option (λ ts. pos_part ts.tv_sec * 1000 + ts.tv_nsec / 1000000) (fx_time_sleep_ms ms)
unfolding fx_time_sleep_ms_windows fx_time_sleep_ms
sleep_agrees ms = elim (Bool-cases (leb_ℤ ms (pos 0))) [
  | inl e ↦ ground (arith, e)
  | inr e ↦
      let whole : pos_part ms / 1000 * 1000 + pos_part ms % 1000 * 1000000 / 1000000 ≡ pos_part ms =
        omega arith in
      ground (arith, e, whole)
]

-- At an instant that the clock of Windows gives in units of 100 ns since 1601 and that of POSIX in
-- seconds and nanoseconds since 1970, before it or after, fx_time_now_ms as compiled for the two
-- gives the same number of milliseconds; and fx_time_sleep_ms sleeps for equally many milliseconds,
-- or not at all, whatever its argument.
pub clocks_agree :
    (ft : FileTime) (sec : ℤ) (nsec : ℕ) (ms : ℤ)
    → ft.low < 2 ^ 32
    → ft.high < 2 ^ 32
    → nsec < 1000000000
    → ticks ft + neg_part sec * 10000000 ≡ epoch + pos_part sec * 10000000 + nsec / 100
    → (fx_time_now_ms_windows ft ≡ fx_time_now_ms (some (record { tv_sec = sec; tv_nsec = nsec })))
      × (fx_time_sleep_ms_windows ms
          ≡ map_option
              (λ ts. pos_part ts.tv_sec * 1000 + ts.tv_nsec / 1000000)
              (fx_time_sleep_ms ms))
clocks_agree ft sec nsec ms low high small same =
    (now_agrees ft sec nsec low high small same, sleep_agrees ms)
