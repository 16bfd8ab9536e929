-- ===== src/Event/Timeout.antt =====
-- Whether a timer runs after `timeout` of ngxpp/NgxEvent.hpp.
use ngx_cpp_dev.Base.{ℕ, ◌==◌, ◌≡◌, Bool, true, false, not, ◌&&◌, arith}
use ngx_cpp_dev.Event.{Event, ngx_nil, timeout}

-- `ngx_add_timer` leaves a timer set, and `ngx_del_timer` none.
pub record Timers (add : ℕ → Event → Event) (del : Event → Event) : Type 0 where
  pub add_sets : (t : ℕ) (ev : Event) → (add t ev).timer_set ≡ true
  pub del_unsets : (ev : Event) → (del ev).timer_set ≡ false

-- A timer runs after `timeout`, unless one ran before and the time is `ngx_nil`: without a running
-- timer `ngx_nil` too sets one. `ngx_add_timer` sets a timer, and `ngx_del_timer` removes it.
pub timeout-timer_set :
    (add : ℕ → Event → Event) (del : Event → Event) (timer : ℕ) (reset : Bool) (ev : Event)
    → Timers add del
    → (timeout add del timer reset ev).timer_set ≡ not (ev.timer_set && timer == ngx_nil)
unfolding timeout
timeout-timer_set add del timer reset ev t = ground (arith, t.add_sets timer ev, t.del_unsets ev)
