-- ===== src/Edge/Time.antt =====
-- The clock and the random numbers (host/std_time/ref.c), as they are compiled for POSIX.
pub mod Rand
pub mod Windows
use fxlang.Prelude.{
  ℕ, suc, ◌+◌, ◌-◌, ◌*◌, ◌/◌, ◌%◌, ◌^◌, Bool, true, false, Option, none, some, ◌==◌, if◌then◌else◌,
  ℤ, pos, negsuc, pos_part, leb_ℤ, low32, to_i32,
}

pub record Timespec : Type 0 where
  pub tv_sec : ℤ
  pub tv_nsec : ℕ

-- `n * 1000 + ms` for `ms` below 1000.
abbrev in_ms : ℤ → (ms : ℕ) → ℤ
in_ms (pos n) ms = pos (n * 1000 + ms)
in_ms (negsuc n) ms = negsuc (suc n * 1000 - ms - 1)

-- `clock` is what `clock_gettime` gives, `none` for a failure.
unfoldable pub fx_time_now_ms : (clock : Option Timespec) → ℤ
fx_time_now_ms none = pos 0
fx_time_now_ms (some ts) = in_ms ts.tv_sec (ts.tv_nsec / 1000000)

-- What `nanosleep` is called with, if it is.
unfoldable pub fx_time_sleep_ms : ℤ → Option Timespec
fx_time_sleep_ms ms =
    if leb_ℤ ms (pos 0)
    then none
    else some record { tv_sec = pos (pos_part ms / 1000); tv_nsec = pos_part ms % 1000 * 1000000 }

-- `x & 0x7fffffff` keeps the low 31 bits.
unfoldable pub fx_rand_next : (state : ℤ) → ℤ
fx_rand_next state =
    let x : ℕ = low32 state in
    let seed : ℕ = if x == 0 then 1 else x in
    to_i32 (pos ((seed * 1664525 + 1013904223) % 2 ^ 32 % 2 ^ 31))
