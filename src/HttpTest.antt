-- ===== src/HttpTest.antt =====
-- http/test/NdgTestHandler.hpp: the module that tries the wrappers out. What it prints is left out but
-- for the values of its containers and the lengths of its chain.
pub mod Rounds
pub mod Containers
pub mod Buffers
use ngx_cpp_dev.Base.{ℕ}
use ngx_cpp_dev.Base.Run.{Cmd, modify}
use ngx_cpp_dev.Nginx.{Ptr}
use ngx_cpp_dev.Timer.{Timers, add}

-- The function that the module gives to its timers.
pub data Callback : Type 0 where
  timer_call : Callback

-- `timer_call()`, which adds the next timer; `fresh` is what the factory returns.
unfoldable pub run_callback : (fresh : Ptr) → Callback → Cmd (Timers Callback) (Unit {0})
unfolding add
run_callback fresh timer_call = modify (add fresh 1000 timer_call)

-- The end of `timer()`
unfoldable pub timer : (fresh : Ptr) → Cmd (Timers Callback) (Unit {0})
unfolding add
timer fresh = modify (add fresh 2000 timer_call)
