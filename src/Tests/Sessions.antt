-- ===== src/Tests/Sessions.antt =====
-- The theorems on ngxpp/NgxEvent.hpp and stream/discard/NdgStreamDiscardHandler.hpp: a client sends
-- two pieces, of 64 and of 5 bytes.
use ngx_cpp_dev.StreamDiscard.Reading.{Incoming}
use mathlib.Core.Path.{subst}
use ngx_cpp_dev.Base.{[], ◌∷◌, List, none, zero, suc, ◌+◌, ◌<◌, ℕ, ◌≡◌, refl, true, false, arith}
use ngx_cpp_dev.Base.Int.{ℤ, pos, ltb_ℤ}
use ngx_cpp_dev.Base.Run.{◌>>◌, ok}
use ngx_cpp_dev.Nginx.{ngx_again, ngx_ok}
use ngx_cpp_dev.Value.{word_settable}
use ngx_cpp_dev.Event.{Event}
use ngx_cpp_dev.Conf.Word.{word}
use ngx_cpp_dev.Event.Timeout.{Timers}
use ngx_cpp_dev.StreamDiscard.{Session, discard_read_handler}
use ngx_cpp_dev.StreamDiscard.Process.{handler, process, run_handler, Connection}
use ngx_cpp_dev.StreamDiscard.Process.Service.{
  Delivery, read_event, write_event, Watches, serve, handler-serve,
}
use ngx_cpp_dev.StreamDiscard.Outcome.{Kept, discard_read_handler-Kept}

abbrev add_timer : ℕ → Event → Event
add_timer t ev = record ev { timer_set = true }

abbrev del_timer : Event → Event
del_timer ev = record ev { timer_set = false }

timers : Timers add_timer del_timer
timers = record { add_sets = λ t ev. refl; del_unsets = λ ev. refl }

abbrev event : Event
event = record { ready = true; timedout = false; timer_set = true }

abbrev answers : ℕ → ℤ
answers zero = pos 64
answers (suc zero) = pos 5
answers (suc (suc i)) = ngx_again

abbrev pieces : (j : ℕ) → j < 2 → ltb_ℤ (pos 0) (answers (0 + j)) ≡ true
pieces zero h = refl
pieces (suc zero) h = refl
pieces (suc (suc j)) h = absurd (omega arith)

abbrev session : Session
session = record { event = event; close = false; received = 0 }

discard_read_handler-Kept_example :
    Kept answers
      (λ b s. s)
      (λ b s. refl)
      add_timer
      del_timer
      (ok ngx_ok)
      (pos 110)
      ngx_ok
      timers
      (discard_read_handler answers
        (λ b s. s)
        add_timer
        del_timer
        (ok ngx_ok)
        (pos 110)
        (λ s. s)
        3
        (record { timeout = 5000 })
        session)
unfolding word_settable
discard_read_handler-Kept_example =
    discard_read_handler-Kept answers (λ b s. s) (λ b s. refl) add_timer del_timer (ok ngx_ok)
      (pos 110) ngx_ok timers (λ ev. (ev, refl, refl)) (record { timeout = 5000 }) refl (λ s. s) 3 2
      session (record { pieces = pieces; last = refl }) (omega arith)

one_piece : (j : ℕ) → j < 1 → ltb_ℤ (pos 0) (answers (1 + j)) ≡ true
one_piece zero h = refl
one_piece (suc j) h = absurd (omega arith)

no_piece : (i : ℕ) → ltb_ℤ (pos 0) (answers (suc (suc i) + 0)) ≡ false
no_piece i =
    let two_more : suc (suc i) ≡ suc (suc i) + 0 = omega arith in
    subst (λ m. ltb_ℤ (pos 0) (answers m) ≡ false) two_more refl

timeout_set : word.invalid 5000 ≡ false
unfolding word_settable
timeout_set = refl

always_pauses : (i : ℕ) → (n : ℕ) × Incoming answers i n × (n < 3)
always_pauses zero = (2, record { pieces = pieces; last = refl }, omega arith)
always_pauses (suc zero) = (1, record { pieces = one_piece; last = refl }, omega arith)
always_pauses (suc (suc i)) =
    (0, record { pieces = λ j h. absurd (omega arith); last = no_piece i }, omega arith)

abbrev close_session : Session → Session
close_session s = record s { close = true }

abbrev connection : Connection
connection = record { session = session; read_handler = none; write_handler = none }

-- More to read, room to write, and then the timeout.
abbrev wakes : List Delivery
wakes =
    read_event (record { ready = true; timedout = false; close = false })
    ∷ write_event
    ∷ read_event (record { ready = false; timedout = true; close = false })
    ∷ []

handler-serve_example :
    Watches answers
      (λ b s. s)
      (λ b s. refl)
      add_timer
      del_timer
      (ok ngx_ok)
      (pos 110)
      ngx_ok
      timers
      (λ ev. (ev, refl, refl))
      (record { timeout = 5000 })
      timeout_set
      close_session
      Session.close
      (λ s. refl)
      3
      always_pauses
      ((handler answers
            (λ b s. s)
            add_timer
            del_timer
            (ok ngx_ok)
            (pos 110)
            close_session
            3
            (record { timeout = 5000 })
          >> serve
              (process answers
                (λ b s. s)
                add_timer
                del_timer
                (ok ngx_ok)
                (pos 110)
                close_session
                3
                (record { timeout = 5000 }))
              (run_handler answers
                (λ b s. s)
                add_timer
                del_timer
                (ok ngx_ok)
                (pos 110)
                close_session
                3
                (record { timeout = 5000 }))
              Session.close
              wakes)
        connection)
handler-serve_example =
    handler-serve answers (λ b s. s) (λ b s. refl) add_timer del_timer (ok ngx_ok) (pos 110) ngx_ok
      timers (λ ev. (ev, refl, refl)) (record { timeout = 5000 }) timeout_set close_session
      Session.close (λ s. refl) 3 always_pauses wakes connection
