-- ===== src/StreamTime/Outcome.antt =====
-- How the write handler of stream/time/NdgStreamTimeHandler.hpp ends, on every branch.
use ngx_cpp_dev.Base.Int.{ℤ, eqb_ℤ}
use ngx_cpp_dev.Event.{timeout}
use ngx_cpp_dev.Exception.{require_rc}
use ngx_cpp_dev.Nginx.{ngx_ok}
use ngx_cpp_dev.Base.Run.{and_then}
use ngx_cpp_dev.Base.Run.{caught, lifted, Cmd, raised, fault, out_of_fuel, Run, ok}
use ngx_cpp_dev.Event.{Event, write_wait_for}
use ngx_cpp_dev.StreamTime.{
  send_time, send, write_time, handle_write, uint_of, close, ngx_stream_ok, Session, Given,
  time_node,
}
use ngx_cpp_dev.Exception.{fail, raise, require_ptr, require}
use ngx_cpp_dev.Nginx.{ngx_error, Ptr, null}
use ngx_cpp_dev.Base.{
  refl, if◌then◌else◌, true, false, not, inl, inr, Bool-cases, ℕ, Bool, ◌≡◌, ◌≢◌, [], ◌∷◌, arith,
}
use ngx_cpp_dev.Memory.{Memory, update, load_link, load_buf, set_next, set_buf, modify_buf}
use ngx_cpp_dev.Memory.Chains.{Cell, Holds, end, node}
use ngx_cpp_dev.Buf.{printf, finish}
use ngx_cpp_dev.Pool.{temp_buffer, chain}
use ngx_cpp_dev.Chain.{set, link, node_finish}

module _ (ngx_slprintf : Ptr → Ptr → Ptr) (g : Given) where
  -- The time as the only buffer of a chain, which ends it.
  abbrev pub time_cell : Cell
  time_cell = record {
    node_at = g.link;
    buf_at = g.buf;
    buf = record g.created {
      last_ptr = ngx_slprintf g.created.pos_ptr g.created.end_ptr;
      last_buf = true;
      last_in_chain = true;
    };
  }

  abbrev pub time_memory : Memory → Memory
  time_memory m = record {
    links =
        update
          (update (update m.links g.link (record { buf = g.uninitialised; next = null })) g.link
            (record { buf = g.buf; next = null }))
          g.link (record { buf = g.buf; next = null });
    bufs =
        update (update (update m.bufs g.buf g.created) g.buf (printf ngx_slprintf g.created)) g.buf
          (finish true (printf ngx_slprintf g.created));
  }

  time_node-ok :
      (m : Memory)
      → g.buf ≢ null
      → g.link ≢ null
      → time_node ngx_slprintf g m ≡ ok g.link (time_memory m)
  unfolding time_node temp_buffer chain require_ptr require raise load_link load_buf set_next
      set_buf modify_buf set link node_finish
  time_node-ok m b l = ground arith

  time_memory-Holds :
      (m : Memory) → g.buf ≢ null → g.link ≢ null → Holds (time_memory m) g.link (time_cell ∷ [])
  unfolding finish printf
  time_memory-Holds m b l = node (ground arith) end

module _ (ngx_stream_top_filter : Ptr → Bool → Cmd Session ℤ)
    (ngx_stream_finalize_session : ℕ → Session → Session) (ngx_add_timer : ℕ → Event → Event)
    (ngx_del_timer : Event → Event) (ngx_handle_write_event : Cmd Event ℤ)
    (ngx_slprintf : Ptr → Ptr → Ptr) (ngx_etimedout : ℤ) where
  abbrev closes : ℤ → Cmd Session (Unit {0})
  closes rc s = ok tt (ngx_stream_finalize_session (uint_of rc) s)

  -- What follows nginx's answer to the wait: a session that cannot wait is closed.
  abbrev waited : Session → Run Event ℤ → Run Session (Unit {0})
  waited s (ok rc ev) =
      let t = record s { event = ev } in if eqb_ℤ rc ngx_ok then ok tt t else closes rc t
  waited s (raised e ev) = closes e.code (record s { event = ev })
  waited s fault = fault
  waited s out_of_fuel = out_of_fuel

  -- A timer of 100 milliseconds is added unless one runs, and nginx waits for the write event.
  abbrev waits : Cmd Session (Unit {0})
  waits s =
      waited s
        (ngx_handle_write_event (if s.event.timer_set then s.event else ngx_add_timer 100 s.event))

  -- What follows the answer of nginx's filters.
  abbrev sent : Run Session ℤ → Run Session (Unit {0})
  sent (ok rc t) =
      if eqb_ℤ rc ngx_error
      then closes ngx_error t
      else if t.buffered
      then waits t
      else closes ngx_stream_ok t
  sent (raised e t) = closes e.code t
  sent fault = fault
  sent out_of_fuel = out_of_fuel

  abbrev pub Ended : Given → Session → Run Session (Unit {0}) → Type 0
  Ended g s r =
      if s.event.timedout
      then (r ≡ closes ngx_etimedout s)
      else if s.close
      then (r ≡ closes ngx_error s)
      else if not s.event.ready
      then (r ≡ waits s)
      else ((m : Memory) × Holds m g.link (time_cell ngx_slprintf g ∷ [])
          × (r ≡ sent (ngx_stream_top_filter g.link true (record s { memory = m }))))

  -- The handler's `catch`.
  abbrev guarded : Run Session (Unit {0}) → Run Session (Unit {0})
  guarded = caught (λ e s. closes e.code s)

  guarded-waited :
      (s : Session) (r : Run Event ℤ)
      → guarded (lifted (λ x. record s { event = x }) (and_then r (λ rc. require_rc rc ngx_ok)))
        ≡ waited s r
  unfolding require_rc require raise
  guarded-waited s (ok rc ev) = ground arith
  guarded-waited s (raised e ev) = refl
  guarded-waited s fault = refl
  guarded-waited s out_of_fuel = refl

  timeout-armed :
      (ev : Event)
      → timeout ngx_add_timer ngx_del_timer 100 false ev
        ≡ (if ev.timer_set then ev else ngx_add_timer 100 ev)
  unfolding timeout
  timeout-armed ev = refl

  guarded-waits :
      (s : Session)
      → guarded (
          lifted
            (λ x. record s { event = x })
            (write_wait_for ngx_add_timer ngx_del_timer ngx_handle_write_event 100 false s.event))
        ≡ waits s
  unfolding write_wait_for
  guarded-waits s = simp (timeout-armed s.event) (
      guarded-waited s
        (ngx_handle_write_event (if s.event.timer_set then s.event else ngx_add_timer 100 s.event)))

  send_time-sent :
      (n : Ptr) (s : Session) (r : Run Session ℤ)
      → ngx_stream_top_filter n true s ≡ r
      → guarded (
          send_time ngx_stream_top_filter ngx_stream_finalize_session ngx_add_timer ngx_del_timer
            ngx_handle_write_event ngx_slprintf ngx_etimedout n s)
        ≡ sent r
  unfolding send_time send close fail raise
  send_time-sent n s (ok rc t) e = elim (Bool-cases (eqb_ℤ rc ngx_error)) [
    | inl bad ↦ rw (e, bad) refl
    | inr good ↦ elim (Bool-cases t.buffered) [
      | inl more ↦ rw (e, good, more) (guarded-waits (record t { buffered = true }))
      | inr done ↦ rw (e, good, done) refl
    ]
  ]
  send_time-sent n s (raised x t) e = rw e refl
  send_time-sent n s fault e = rw e refl
  send_time-sent n s out_of_fuel e = rw e refl

  handle_write-guarded :
      (g : Given) (s : Session)
      → handle_write ngx_stream_top_filter ngx_stream_finalize_session ngx_add_timer ngx_del_timer
          ngx_handle_write_event ngx_slprintf ngx_etimedout g s
        ≡ guarded (
            write_time ngx_stream_top_filter ngx_stream_finalize_session ngx_add_timer ngx_del_timer
              ngx_handle_write_event ngx_slprintf ngx_etimedout g s)
  unfolding handle_write close
  handle_write-guarded g s = refl

  write_time-Ended :
      (g : Given) (s : Session)
      → g.buf ≢ null
      → g.link ≢ null
      → Ended g s (
          guarded (
            write_time ngx_stream_top_filter ngx_stream_finalize_session ngx_add_timer ngx_del_timer
              ngx_handle_write_event ngx_slprintf ngx_etimedout g s))
  unfolding write_time fail raise
  write_time-Ended g s b l = elim (Bool-cases s.event.timedout) [
    | inl late ↦ rw late refl
    | inr live ↦ elim (Bool-cases s.close) [
      | inl shut ↦ rw (live, shut) refl
      | inr up ↦ elim (Bool-cases s.event.ready) [
        | inl ready ↦
            rw (live, up, ready)
              (
                time_memory ngx_slprintf g s.memory,
                time_memory-Holds ngx_slprintf g s.memory b l,
                rw (time_node-ok ngx_slprintf g s.memory b l) (send_time-sent g.link _ _ refl),
              )
        | inr idle ↦
            rw (live, up, idle)
              (guarded-waits (record s {
                event = record s.event { timedout = false; ready = false };
                close = false;
              }))
      ]
    ]
  ]

  -- The write handler closes a session whose event timed out, with that code, and one whose
  -- connection is closed, with an error. Where it cannot write yet it waits: a timer of 100 milliseconds
  -- is added unless one runs, and nginx is asked for the next write event. Else nginx's filters get
  -- one node with the time, which ends its chain, and the session is closed: with the filters' error,
  -- or with success; only if the connection still holds bytes back it waits instead. A session for
  -- which nginx refuses to wait is closed, with nginx's code. The allocator's addresses are not null.
  pub handle_write-Ended :
      (g : Given) (s : Session)
      → g.buf ≢ null
      → g.link ≢ null
      → Ended g s (
          handle_write ngx_stream_top_filter ngx_stream_finalize_session ngx_add_timer ngx_del_timer
            ngx_handle_write_event ngx_slprintf ngx_etimedout g s)
  handle_write-Ended g s b l = rw (handle_write-guarded g s) (write_time-Ended g s b l)
