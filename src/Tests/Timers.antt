-- ===== src/Tests/Timers.antt =====
-- The theorem on the timer of http/test/NdgTestHandler.hpp, over four rounds.
use ngx_cpp_dev.Base.{◌≡◌, ◌⊎◌, [], ◌∷◌, arith}
use ngx_cpp_dev.Base.Run.{ok, ◌>>◌}
use ngx_cpp_dev.Timer.{Timers}
use ngx_cpp_dev.HttpTest.{Callback, timer}
use ngx_cpp_dev.HttpTest.Rounds.{rounds, no_timers, Waits, rounds-two}

rounds-two_example :
    (t : Timers Callback) × ((timer 800 >> rounds (801 ∷ 802 ∷ 803 ∷ 804 ∷ [])) no_timers ≡ ok tt t)
    × (Waits 800 801 t ⊎ Waits 801 800 t)
rounds-two_example = rounds-two 800 801 (802 ∷ 803 ∷ 804 ∷ []) (omega arith)
