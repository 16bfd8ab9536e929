-- ===== src/StreamDiscard/Process/Service.antt =====
-- What becomes of a session of stream/discard/NdgStreamDiscardHandler.hpp over all the events that
-- nginx delivers to it.
use ngx_cpp_dev.Base.{
  ℕ, ◌<◌, ◌≡◌, refl, Bool, true, false, ◌⊎◌, inl, inr, some, none, List, [], ◌∷◌, Bool-cases,
  if◌then◌else◌,
}
use ngx_cpp_dev.Base.Int.{ℤ}
use ngx_cpp_dev.Base.Run.{Run, Cmd, ok, ◌>>◌, fault}
use ngx_cpp_dev.Event.{Event}
use ngx_cpp_dev.Event.Timeout.{Timers}
use ngx_cpp_dev.Conf.Word.{word}
use ngx_cpp_dev.Conf.Discard.{NdgStreamDiscardConf}
use ngx_cpp_dev.StreamDiscard.{Session, discard_read_handler}
use ngx_cpp_dev.StreamDiscard.Reading.{Spares, Incoming}
use ngx_cpp_dev.StreamDiscard.Outcome.{keeps, HandlesRead, discard_read_handler-Kept}
use ngx_cpp_dev.StreamDiscard.Process.{
  Handler, Connection, discard_read, block_write, run_handler, process, handler,
}

-- What nginx has found out when it calls the handler of the read event.
pub record Wake : Type 0 where
  pub ready : Bool
  pub timedout : Bool
  pub close : Bool

abbrev pub woken : Wake → Session → Session
woken w s = record s {
  event = record s.event { ready = w.ready; timedout = w.timedout };
  close = w.close;
}

-- An event that nginx delivers: the read event, or that the connection can be written to.
pub data Delivery : Type 0 where
  read_event : Wake → Delivery
  write_event : Delivery

decided {ℓ μ} :
    {A : Type ℓ} {B : Type ℓ} {C : Type μ} (b : Bool) → (if b then A else B) → (A → C) → (B → C) → C
decided true x f g = f x
decided false x f g = g x

-- The events that nginx delivers, up to the end of the session: it calls the handler of the read or of
-- the write event, where a null one is a fault. `gone` says that the session was closed.
module _ (process_event : Cmd Connection (Unit {0})) (run : Handler → Cmd Connection (Unit {0}))
    (gone : Session → Bool) where
  abbrev pub deliver : Delivery → Cmd Connection (Unit {0})
  deliver (read_event w) c = process_event (record c { session = woken w c.session })
  deliver write_event c = elim c.write_handler [ none ↦ fault | some h ↦ run h c ]

  abbrev pub serve : List Delivery → Cmd Connection (Unit {0})
  serve [] c = ok tt c
  serve (w ∷ ws) c = if gone c.session then ok tt c else (deliver w >> serve ws) c

module _ (answers : ℕ → ℤ) (reusable : Bool → Session → Session) (spares : Spares reusable)
    (add : ℕ → Event → Event) (del : Event → Event) (handle_read : Cmd Event ℤ) (etimedout rc : ℤ)
    (timers : Timers add del) where
  module _ (handles : HandlesRead answers reusable spares add del handle_read etimedout rc timers)
      (cf : NdgStreamDiscardConf) (set : word.invalid cf.timeout ≡ false)
      (close_session : Session → Session) (gone : Session → Bool)
      (closes : (s : Session) → gone (close_session s) ≡ true) (k : ℕ)
      (pauses : (i : ℕ) → (n : ℕ) × Incoming answers i n × (n < k)) where
    -- The session is closed, or its timer runs.
    abbrev pub IsWatched : Session → Type 0
    IsWatched s = (gone s ≡ true) ⊎ (s.event.timer_set ≡ true)

    reads_on : Cmd Session (Unit {0})
    reads_on =
        discard_read_handler answers reusable add del handle_read etimedout close_session k cf

    reads_on-IsWatched : (s : Session) → (t : Session) × (reads_on s ≡ ok tt t) × IsWatched t
    unfolding reads_on
    reads_on-IsWatched s =
        let (n, inc, fuel) = pauses s.received in
        decided (keeps answers reusable spares add del handle_read etimedout rc timers n s)
          (discard_read_handler-Kept answers reusable spares add del handle_read etimedout rc timers
            handles cf set close_session k n s inc fuel)
          (λ kept. let (t, run, runs) = kept in (t, run, inr runs))
          (λ closed. let (t, run) = closed in (close_session t, run, inl (closes t)))

    goes_on : Cmd Connection (Unit {0})
    goes_on = process answers reusable add del handle_read etimedout close_session k cf

    runs_handler : Handler → Cmd Connection (Unit {0})
    runs_handler = run_handler answers reusable add del handle_read etimedout close_session k cf

    -- Both events have the handlers that were installed.
    abbrev pub HasHandlers : Connection → Type 0
    HasHandlers c = (c.read_handler ≡ some discard_read) × (c.write_handler ≡ some block_write)

    -- The command leaves the connection's session watched, by the handlers that were installed.
    abbrev pub Watches : Run Connection (Unit {0}) → Type 0
    Watches run = (d : Connection) × (run ≡ ok tt d) × HasHandlers d × IsWatched d.session

    process-Watches : (c : Connection) → HasHandlers c → Watches (goes_on c)
    unfolding goes_on process run_handler reads_on
    process-Watches c h =
        let (t, run, watched) = reads_on-IsWatched c.session in
        (record c { session = t }, rw (h.0, run) refl, h, watched)

    deliver-Watches :
        (w : Delivery) (c : Connection)
        → HasHandlers c
        → IsWatched c.session
        → Watches (deliver goes_on runs_handler gone w c)
    unfolding runs_handler run_handler
    deliver-Watches (read_event w) c h watched =
        process-Watches (record c { session = woken w c.session }) h
    deliver-Watches write_event c h watched = (c, rw h.1 refl, h, watched)

    serve-Watches :
        (ws : List Delivery) (c : Connection)
        → HasHandlers c
        → IsWatched c.session
        → Watches (serve goes_on runs_handler gone ws c)
    serve-Watches [] c h watched = (c, refl, h, watched)
    serve-Watches (w ∷ ws) c h watched = elim (Bool-cases (gone c.session)) [
      | inl over ↦ rw over (c, refl, h, watched)
      | inr alive ↦
          let (d, run, h', watched') = deliver-Watches w c h watched in
          let (d', run', h'', last) = serve-Watches ws d h' watched' in
          rw (alive, run) (d', run', h'', last)
    ]

    handler-Watches :
        (c : Connection)
        → Watches (handler answers reusable add del handle_read etimedout close_session k cf c)
    unfolding handler goes_on
    handler-Watches c =
        let (d, run, h, watched) =
          process-Watches
            (record c { read_handler = some discard_read; write_handler = some block_write })
            (refl, refl) in
        (d, rw run refl, h, watched)

    -- Whatever read and write events nginx delivers to a session that the handler has started, no call
    -- of a handler faults, both handlers stay in place, and the session ends closed or waits with a
    -- running timer for its next event. At every moment the client sends fewer than `k` pieces before
    -- it pauses, where `k` is the loop's fuel; nginx's functions set and remove timers as they say and
    -- change nothing else, and its function that waits for a read event returns the same code `rc` for
    -- every event; the configured timeout is set, and `gone` says of every session that was closed
    -- that it was.
    pub handler-serve :
        (ws : List Delivery) (c : Connection)
        → Watches (
            (handler answers reusable add del handle_read etimedout close_session k cf
                >> serve
                    (process answers reusable add del handle_read etimedout close_session k cf)
                    (run_handler answers reusable add del handle_read etimedout close_session k cf)
                    gone
                    ws)
              c)
    unfolding goes_on runs_handler
    handler-serve ws c =
        let (d, run, h, watched) = handler-Watches c in
        let (d', run', h', last) = serve-Watches ws d h watched in (d', rw run run', h', last)
