-- ===== src/StreamDiscard/Outcome.antt =====
-- Which sessions stream/discard/NdgStreamDiscardHandler.hpp keeps, and which it closes.
use ngx_cpp_dev.Exception.{fail, exception_of, raise, require, require_rc}
use ngx_cpp_dev.Conf.Discard.{NdgStreamDiscardConf}
use mathlib.Core.Path.{subst}
use ngx_cpp_dev.Base.{
  inr, inl, Bool-cases, sym, ◌∙◌, ℕ, ◌+◌, ◌<◌, ◌≡◌, Bool, true, false, not, ◌&&◌, ◌||◌, refl, arith,
  if◌then◌else◌,
}
use ngx_cpp_dev.Base.Int.{ℤ, eqb_ℤ}
use ngx_cpp_dev.Conf.Word.{word}
use ngx_cpp_dev.Value.{word_settable}
use ngx_cpp_dev.Base.Run.{modify, catch, raised, Run, NgxException, Cmd, ok}
use ngx_cpp_dev.Nginx.{ngx_error, ngx_again, ngx_ok}
use ngx_cpp_dev.Event.{timeout, wait_for, Event}
use ngx_cpp_dev.Event.Timeout.{timeout-timer_set, Timers}
use ngx_cpp_dev.StreamDiscard.{discard_read_handler, drain, discard, on_event, Session}
use ngx_cpp_dev.StreamDiscard.Reading.{Spares, Incoming, reads, read_loop-last}

module _ (answers : ℕ → ℤ) (reusable : Bool → Session → Session) (spares : Spares reusable) where
  module _ (add : ℕ → Event → Event) (del : Event → Event) (handle_read : Cmd Event ℤ)
      (etimedout rc : ℤ) (timers : Timers add del) where
    -- The handler goes on with the session.
    abbrev pub keeps : ℕ → Session → Bool
    keeps n s =
        not s.event.timedout
        && not s.close
        && (not s.event.ready || eqb_ℤ (answers (s.received + n)) ngx_again)
        && eqb_ℤ rc ngx_ok

    -- `ngx_handle_read_event` returns `rc` and leaves the timer alone.
    abbrev pub HandlesRead : Type 0
    HandlesRead =
        (ev : Event) → (ev' : Event) × (handle_read ev ≡ ok rc ev') × (ev'.timer_set ≡ ev.timer_set)

    abbrev pub Kept : Run Session (Unit {0}) → Type 0
    Kept run = (t : Session) × (run ≡ ok tt t) × (t.event.timer_set ≡ true)

    abbrev Thrown : Run Session (Unit {0}) → Type 0
    Thrown run = (e : NgxException) × (t : Session) × (run ≡ raised e t)

    abbrev Decided : Run Session (Unit {0}) → Bool → Type 0
    Decided run b = if b then Kept run else Thrown run

    abbrev pub Closed : (Session → Session) → Run Session (Unit {0}) → Type 0
    Closed close_session run = (t : Session) × (run ≡ ok tt (close_session t))

    module _ (handles : HandlesRead) (cf : NdgStreamDiscardConf)
        (set : word.invalid cf.timeout ≡ false) where
      wait : Cmd Session (Unit {0})
      wait = on_event (wait_for add del handle_read cf.timeout true)

      wait-Kept : (s : Session) → eqb_ℤ rc ngx_ok ≡ true → Kept (wait s)
      unfolding wait wait_for require_rc require word_settable
      wait-Kept s good =
          let ev = timeout add del cf.timeout true s.event in
          let (ev', e, same) = handles ev in
          let runs = timeout-timer_set add del cf.timeout true s.event timers in
          (record s { event = ev' }, ground arith, rw (same, runs) (ground arith))

      wait-Thrown : (s : Session) → eqb_ℤ rc ngx_ok ≡ false → Thrown (wait s)
      unfolding wait wait_for require_rc require raise
      wait-Thrown s bad =
          let ev = timeout add del cf.timeout true s.event in
          let (ev', e, same) = handles ev in
          (exception_of rc, record s { event = ev' }, ground arith)

      waited : (s : Session) → if eqb_ℤ rc ngx_ok then Kept (wait s) else Thrown (wait s)
      waited s = elim (Bool-cases (eqb_ℤ rc ngx_ok)) [
        | inl good ↦ rw good (wait-Kept s good)
        | inr bad ↦ rw bad (wait-Thrown s bad)
      ]

      read : ℕ → Session → Run Session (Unit {0})
      read k = discard answers reusable add del handle_read etimedout k cf

      read-Thrown : (k : ℕ) (s : Session) → (s.event.timedout || s.close) ≡ true → Thrown (read k s)
      unfolding read discard fail raise
      read-Thrown k s out = elim (Bool-cases s.event.timedout) [
        | inl late ↦ (exception_of etimedout, s, ground arith)
        | inr in_time ↦ (exception_of ngx_error, s, ground arith)
      ]

      read-wait :
          (k : ℕ) (s : Session)
          → (s.event.timedout || s.close) ≡ false
          → s.event.ready ≡ false
          → read k s ≡ wait s
      unfolding read wait discard fail
      read-wait k s fine idle = ground arith

      read-drain :
          (k n : ℕ) (s : Session)
          → (s.event.timedout || s.close) ≡ false
          → s.event.ready ≡ true
          → Incoming answers s.received n
          → n < k
          → read k s ≡ (
              if eqb_ℤ (answers (s.received + n)) ngx_again
              then wait (reads answers reusable spares (n + 1) s)
              else raised (exception_of ngx_error) (reads answers reusable spares (n + 1) s))
      unfolding read wait discard drain fail raise
      read-drain k n s fine ready inc fuel =
          let e = read_loop-last answers reusable spares k n s inc fuel in ground arith

      read-cases :
          (k n : ℕ) (s : Session)
          → Incoming answers s.received n
          → n < k
          → if keeps n s then Kept (read k s) else Thrown (read k s)
      read-cases k n s inc fuel = elim (Bool-cases (s.event.timedout || s.close)) [
        | inl out ↦
            let stops : keeps n s ≡ false = ground arith in
            subst (Decided (read k s)) (sym stops) (read-Thrown k s out)
        | inr fine ↦ elim (Bool-cases s.event.ready) [
          | inr idle ↦
              let goes_on : keeps n s ≡ eqb_ℤ rc ngx_ok = ground arith in
              subst (Decided (read k s)) (sym goes_on) (rw (read-wait k s fine idle) (waited s))
          | inl ready ↦ elim (Bool-cases (eqb_ℤ (answers (s.received + n)) ngx_again)) [
            | inl again ↦
                let goes_on : keeps n s ≡ eqb_ℤ rc ngx_ok = ground arith in
                subst (Decided (read k s)) (sym goes_on) (
                  rw (read-drain k n s fine ready inc fuel, again)
                    (waited (reads answers reusable spares (n + 1) s)))
            | inr broken ↦
                let stops : keeps n s ≡ false = ground arith in
                subst (Decided (read k s)) (sym stops) (
                  exception_of ngx_error,
                  reads answers reusable spares (n + 1) s,
                  read-drain k n s fine ready inc fuel ∙ rw broken refl,
                )
          ]
        ]
      ]

      handled : (Session → Session) → ℕ → Session → Run Session (Unit {0})
      handled close_session k s =
          discard_read_handler answers reusable add del handle_read etimedout close_session k cf s

      abbrev caught :
          (Session → Session) → Session → Run Session (Unit {0}) → Run Session (Unit {0})
      caught close_session s run = catch (λ _. run) (λ (e : NgxException). modify close_session) s

      handled-caught :
          (close_session : Session → Session) (k : ℕ) (s : Session)
          → handled close_session k s ≡ caught close_session s (read k s)
      unfolding handled read discard_read_handler
      handled-caught close_session k s = refl

      handled-Kept :
          (close_session : Session → Session) (k : ℕ) (s : Session)
          → Kept (read k s)
          → Kept (handled close_session k s)
      handled-Kept close_session k s (t, e, runs) =
          (t, handled-caught close_session k s ∙ rw e refl, runs)

      handled-Closed :
          (close_session : Session → Session) (k : ℕ) (s : Session)
          → Thrown (read k s)
          → Closed close_session (handled close_session k s)
      handled-Closed close_session k s (e, t, run) =
          (t, handled-caught close_session k s ∙ rw run refl)

      -- The handler drops all that the client sends. It keeps the session, with a timer running,
      -- exactly if the event has not timed out, the connection is not closed, a ready connection's
      -- last answer is `NGX_AGAIN`, and nginx accepts to wait for the next event; else it closes the
      -- session. The client sends `n` pieces, the fuel is more than that, the configured timeout is
      -- set, and nginx's functions set and remove timers as they say and change nothing else.
      pub discard_read_handler-Kept :
          (close_session : Session → Session) (k n : ℕ) (s : Session)
          → Incoming answers s.received n
          → n < k
          → if keeps n s
            then Kept (
                discard_read_handler answers reusable add del handle_read etimedout close_session k
                  cf s)
            else Closed close_session (
                discard_read_handler answers reusable add del handle_read etimedout close_session k
                  cf s)
      unfolding handled
      discard_read_handler-Kept close_session k n s inc fuel = elim (Bool-cases (keeps n s)) [
        | inl goes_on ↦ rw goes_on (
            handled-Kept close_session k s
              (subst (Decided (read k s)) goes_on (read-cases k n s inc fuel)))
        | inr stops ↦ rw stops (
            handled-Closed close_session k s
              (subst (Decided (read k s)) stops (read-cases k n s inc fuel)))
      ]
