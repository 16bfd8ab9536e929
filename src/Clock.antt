-- ===== src/Clock.antt =====
-- ngxpp/NgxClock.hpp: the time since a clock was reset. nginx's time is seconds since the epoch, of
-- type `time_t`, and milliseconds, of the unsigned type `ngx_uint_t`.
pub mod Delta
use ngx_cpp_dev.Base.{ℕ, ◌+◌, ◌-◌, ◌%◌, ◌^◌}
use ngx_cpp_dev.Base.Int.{ℤ}
use ngx_cpp_dev.NgxString.{off_t_of}

-- `ngx_time_t`
pub record NgxTime : Type 0 where
  pub sec : ℕ
  pub msec : ℕ

-- A difference of two times.
pub record Difference : Type 0 where
  pub sec : ℤ
  pub msec : ℕ

-- `reset()`: the clock's time becomes the present one.
unfoldable pub reset : (now : NgxTime) → NgxTime → NgxTime
reset now m_time = now

-- `delta()`: both fields are subtracted with 64 bits, and only the seconds have a sign.
unfoldable pub delta : (now : NgxTime) → NgxTime → Difference
delta now m_time = record {
  sec = off_t_of (now.sec + 2 ^ 64 - m_time.sec);
  msec = (now.msec + 2 ^ 64 - m_time.msec) % 2 ^ 64;
}
