-- ===== src/Clock/Delta.antt =====
-- When the difference of ngxpp/NgxClock.hpp is the time that has passed.
use ngx_cpp_dev.Base.{◌+◌, ◌-◌, ◌^◌, ◌<◌, ◌≤◌, ◌≡◌, ◌⊎◌, inl, inr, arith, Bool-cases, leb}
use ngx_cpp_dev.Base.Int.{pos}
use ngx_cpp_dev.NgxString.{off_t_of}
use ngx_cpp_dev.Clock.{NgxTime, delta}

-- A time whose milliseconds are less than a second and whose seconds fit a `time_t`.
pub record IsTime (t : NgxTime) : Type 0 where
  pub msec-lt : t.msec < 1000
  pub sec-lt : t.sec < 2 ^ 63

-- `delta` is right in the seconds, which have not run backwards. It is right in the milliseconds if
-- those of the present are not fewer than those of the reset; if they are fewer, no second is
-- borrowed, and `delta` has at least `2 ^ 64 - 999` milliseconds. Both times are valid.
pub delta-exact :
    (now m_time : NgxTime)
    → IsTime now
    → IsTime m_time
    → m_time.sec ≤ now.sec
    → ((delta now m_time).sec ≡ pos (now.sec - m_time.sec))
      × (((m_time.msec ≤ now.msec) × ((delta now m_time).msec + m_time.msec ≡ now.msec))
          ⊎ ((now.msec < m_time.msec) × (2 ^ 64 - 999 ≤ (delta now m_time).msec)))
unfolding delta off_t_of
delta-exact now m_time v w later = elim (Bool-cases (leb m_time.msec now.msec)) [
  | inl enough ↦ (ground (arith, v.sec-lt, w.sec-lt), inl (ground arith, ground (arith, v.msec-lt)))
  | inr fewer ↦ (ground (arith, v.sec-lt, w.sec-lt), inr (ground arith, ground (arith, w.msec-lt)))
]
