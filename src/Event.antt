-- ===== src/Event.antt =====
-- ngxpp/NgxEvent.hpp: the timer of an event and the wait for the next one. The functions of nginx
-- that arm and remove a timer are arguments.
pub mod Timeout
use ngx_cpp_dev.Base.{ℕ, ◌==◌, ◌-◌, ◌^◌, Bool, true, false, not, if◌then◌else◌}
use ngx_cpp_dev.Base.Int.{ℤ}
use ngx_cpp_dev.Base.Run.{Cmd, ◌>>=◌, ◌>>◌, modify}
use ngx_cpp_dev.Nginx.{ngx_ok}
use ngx_cpp_dev.Exception.{require_rc}

-- The fields of `ngx_event_t` that the wrappers read.
pub record Event : Type 0 where
  pub ready : Bool
  pub timedout : Bool
  pub timer_set : Bool

-- `ngx_nil` as an `ngx_msec_t`.
abbrev pub ngx_nil : ℕ
ngx_nil = 2 ^ 64 - 1

module _ (ngx_add_timer : ℕ → Event → Event) (ngx_del_timer : Event → Event) where
  -- `timeout(timer, reset)`
  unfoldable pub timeout : ℕ → Bool → Event → Event
  timeout timer reset ev =
      if ev.timer_set
      then (if timer == ngx_nil
          then ngx_del_timer ev
          else if not reset
          then ev
          else ngx_add_timer timer ev)
      else ngx_add_timer timer ev

  -- `NgxReadEvent::wait_for(timer, reset)`, with `wait()`
  unfoldable pub wait_for : (ngx_handle_read_event : Cmd Event ℤ) → ℕ → Bool → Cmd Event (Unit {0})
  unfolding require_rc
  wait_for ngx_handle_read_event timer reset = do
    modify (timeout timer reset)
    rc ← ngx_handle_read_event
    require_rc rc ngx_ok

  -- `NgxWriteEvent::wait_for(timer, reset)`, with `wait()`
  unfoldable pub write_wait_for :
      (ngx_handle_write_event : Cmd Event ℤ) → ℕ → Bool → Cmd Event (Unit {0})
  unfolding require_rc
  write_wait_for ngx_handle_write_event timer reset = do
    modify (timeout timer reset)
    rc ← ngx_handle_write_event
    require_rc rc ngx_ok
