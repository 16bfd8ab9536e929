-- ===== src/Timer.antt =====
-- ngxpp/NgxTimer.hpp: one-shot timers, whose events are taken from a pool and go back to it once they
-- have fired. `F` is the type of the callbacks. nginx's timers are the list `pending`, of the events
-- that were handed out and have not come back.
pub mod Pool
use ngx_cpp_dev.Base.{
  ℕ, zero, suc, ◌+◌, ◌-◌, ◌==◌, ◌^◌, Bool, true, false, not, Option, none, some, List, [], ◌∷◌,
  ◌++◌, if◌then◌else◌, is_some,
}
use ngx_cpp_dev.Base.Run.{Cmd, ok, fault, ◌>>◌, modify}
use ngx_cpp_dev.Nginx.{Ptr}
use ngx_cpp_dev.Value.{word_settable, Settable}
use ngx_cpp_dev.Conf.Word.{word}

-- `NgxTimerEv`: its callback, the time that it was started with, and `m_ev.timedout`.
pub record TimerEv (F : Type 0) : Type 0 where
  pub func : F
  pub started : Option ℕ
  pub timedout : Bool

pub record Timers (F : Type 0) : Type 0 where
  pub pool : List Ptr
  pub pending : List Ptr
  pub events : Ptr → Option (TimerEv F)

-- `acquire()`: the event, and the pool without it; `fresh` is what the factory returns.
unfoldable pub acquire : (fresh : Ptr) → List Ptr → Ptr × List Ptr
acquire fresh [] = (fresh, [])
acquire fresh (p ∷ ps) = (p, ps)

-- `release(e)`
unfoldable pub release : Ptr → List Ptr → List Ptr
release p pool = pool ++ p ∷ []

abbrev pub without : Ptr → List Ptr → List Ptr
without p [] = []
without p (q ∷ qs) = if q == p then qs else q ∷ without p qs

module _ {F : Type 0} where
  -- `init(f, ms)`: the event is zeroed, and started unless the time is unset.
  unfoldable pub init : F → ℕ → TimerEv F
  init f ms = record {
    func = f;
    started = if word.invalid ms then none else some ms;
    timedout = false;
  }

  abbrev pub set_event : Ptr → TimerEv F → (Ptr → Option (TimerEv F)) → Ptr → Option (TimerEv F)
  set_event p ev events q = if q == p then some ev else events q

  -- `add(ms, f)`
  unfoldable pub add : (fresh : Ptr) → ℕ → F → Timers F → Timers F
  unfolding acquire
  add fresh ms f s =
      let e = acquire fresh s.pool in
      record { pool = e.1; pending = e.0 ∷ s.pending; events = set_event e.0 (init f ms) s.events }

  -- `operator()`: the callback that runs, if the event has timed out.
  unfoldable pub callback : TimerEv F → Option F
  callback ev = if not ev.timedout then none else some ev.func

  -- The end of `call(ev)`: the event goes back to the pool once its callback has run.
  unfoldable pub finish_call : Ptr → Timers F → Timers F
  unfolding release
  finish_call p s = record s { pool = release p s.pool; pending = without p s.pending }

  -- `clear()`; an event that was not started has no timer to delete.
  unfoldable pub clear : TimerEv F → TimerEv F
  clear ev = if is_some ev.started then record ev { started = none } else ev

  -- What both `call` functions do first; `run` runs a callback.
  unfoldable pub run_event : (run : F → Cmd (Timers F) (Unit {0})) → Ptr → Cmd (Timers F) (Unit {0})
  unfolding callback
  run_event run p s = elim (s.events p) [
    | none ↦ fault
    | some ev ↦ elim (callback ev) [ none ↦ ok tt s | some f ↦ run f s ]
  ]

  -- `NgxTimer::call(ev)`, and `NgxTimerCaller::call(ev)` for an event that its caller keeps.
  unfoldable pub call : (run : F → Cmd (Timers F) (Unit {0})) → Ptr → Cmd (Timers F) (Unit {0})
  unfolding run_event finish_call
  call run p = do run_event run p; modify (finish_call p)

  unfoldable pub caller_call :
      (run : F → Cmd (Timers F) (Unit {0})) → Ptr → Cmd (Timers F) (Unit {0})
  unfolding run_event
  caller_call run p = run_event run p
