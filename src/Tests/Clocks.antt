-- ===== src/Tests/Clocks.antt =====
-- The theorems on ngxpp/NgxTimer.hpp, where one timer is added, fires, and its event serves the
-- next, and on ngxpp/NgxClock.hpp, from 100.9 to 101.1 seconds.
use ngx_cpp_dev.Base.{ℕ, refl, [], none, arith, ◌+◌, ◌-◌, ◌^◌, ◌≤◌, ◌<◌, ◌≡◌, ◌⊎◌}
use ngx_cpp_dev.Base.Int.{pos}
use ngx_cpp_dev.Clock.{NgxTime, delta}
use ngx_cpp_dev.Clock.Delta.{delta-exact}
use ngx_cpp_dev.Timer.{acquire, release, Timers, add, finish_call}
use ngx_cpp_dev.Timer.Pool.{
  IsExclusive, adds, finishes, Reachable, start, step, Reachable-IsExclusive,
}

abbrev none_yet : Timers ℕ
none_yet = record { pool = []; pending = []; events = λ a. none }

abbrev one_pending : Timers ℕ
unfolding add acquire
one_pending = add 1000 50 7 none_yet

abbrev one_idle : Timers ℕ
unfolding finish_call release
one_idle = finish_call 1000 one_pending

abbrev again_pending : Timers ℕ
again_pending = add 2000 60 8 one_idle

again-Reachable : Reachable again_pending
unfolding add finish_call acquire release
again-Reachable =
    step (step (step start (adds 1000 50 7 refl refl)) (finishes 1000 (omega arith)))
      (adds 2000 60 8 refl refl)

Reachable-IsExclusive_example : IsExclusive again_pending
Reachable-IsExclusive_example = Reachable-IsExclusive again_pending again-Reachable

abbrev at_reset : NgxTime
at_reset = record { sec = 100; msec = 900 }

abbrev present : NgxTime
present = record { sec = 101; msec = 100 }

delta-exact_example :
    ((delta present at_reset).sec ≡ pos (101 - 100))
    × (((900 ≤ 100) × ((delta present at_reset).msec + 900 ≡ 100))
        ⊎ ((100 < 900) × (2 ^ 64 - 999 ≤ (delta present at_reset).msec)))
delta-exact_example =
    delta-exact present at_reset (record { msec-lt = omega arith; sec-lt = omega arith })
      (record { msec-lt = omega arith; sec-lt = omega arith }) (omega arith)
