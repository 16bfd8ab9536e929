-- ===== src/StreamDiscard/Process.antt =====
-- The handler with which stream/discard/NdgStreamDiscardHandler.hpp starts a session, and the calls of
-- the handlers that it puts into the events of the connection.
pub mod Service
use ngx_cpp_dev.Base.{ℕ, Bool, Option, none, some}
use ngx_cpp_dev.Base.Int.{ℤ}
use ngx_cpp_dev.Base.Run.{lifted, NgxException, Cmd, fault, ◌>>=◌, ◌>>◌, catch, pure, modify}
use ngx_cpp_dev.Event.{Event}
use ngx_cpp_dev.Conf.Discard.{NdgStreamDiscardConf}
use ngx_cpp_dev.StreamDiscard.{Session, discard_read_handler}

pub data Handler : Type 0 where
  block_write : Handler
  discard_read : Handler

-- A session with the handlers of its connection's events; a new event has none.
pub record Connection : Type 0 where
  pub session : Session
  pub read_handler : Option Handler
  pub write_handler : Option Handler

abbrev pub on_session : {A : Type 0} → Cmd Session A → Cmd Connection A
on_session m c = lifted (λ x. record c { session = x }) (m c.session)

module _ (answers : ℕ → ℤ) (ngx_reusable_connection : Bool → Session → Session)
    (ngx_add_timer : ℕ → Event → Event) (ngx_del_timer : Event → Event)
    (ngx_handle_read_event : Cmd Event ℤ) (ngx_etimedout : ℤ) (close_session : Session → Session)
    (k : ℕ) (cf : NdgStreamDiscardConf) where
  -- A call of a handler; the one of the write event is empty.
  unfoldable pub run_handler : Handler → Cmd Connection (Unit {0})
  run_handler block_write = pure tt
  run_handler discard_read = on_session (
      discard_read_handler answers ngx_reusable_connection ngx_add_timer ngx_del_timer
        ngx_handle_read_event ngx_etimedout close_session k cf)

  -- `process()` of the read event
  unfoldable pub process : Cmd Connection (Unit {0})
  unfolding run_handler
  process c = elim c.read_handler [ none ↦ fault | some h ↦ run_handler h c ]

  -- `handler(s)`
  unfoldable pub handler : Cmd Connection (Unit {0})
  unfolding process
  handler =
      catch
        (do
          modify (λ c. record c { write_handler = some block_write })
          modify (λ c. record c { read_handler = some discard_read })
          process)
        (λ (e : NgxException). on_session (modify close_session))
