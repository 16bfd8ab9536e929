-- ===== src/StreamDiscard.antt =====
-- stream/discard/NdgStreamDiscardHandler.hpp: reads and drops what a client sends until there is
-- nothing more to read for now. The session's state is what the handler reads of its event and its
-- connection; call number `i` of the connection's `recv` returns `answers i`.
pub mod Reading
pub mod Outcome
pub mod Process
use ngx_cpp_dev.Base.{false, true, ℕ, zero, suc, ◌+◌, Bool, not, if◌then◌else◌}
use ngx_cpp_dev.Base.Int.{ℤ, pos, ltb_ℤ, eqb_ℤ}
use ngx_cpp_dev.Base.Run.{
  lifted, NgxException, Cmd, ok, raised, fault, out_of_fuel, ◌>>=◌, ◌>>◌, catch, pure, modify, get,
}
use ngx_cpp_dev.Nginx.{ngx_again, ngx_error}
use ngx_cpp_dev.Exception.{fail}
use ngx_cpp_dev.Event.{Event, wait_for}
use ngx_cpp_dev.Conf.Discard.{NdgStreamDiscardConf}

pub record Session : Type 0 where
  pub event : Event
  pub close : Bool
  pub received : ℕ

-- Commands on the session's read event.
abbrev pub on_event : {A : Type 0} → Cmd Event A → Cmd Session A
on_event c s = lifted (λ x. record s { event = x }) (c s.event)

module _ (answers : ℕ → ℤ) (ngx_reusable_connection : Bool → Session → Session) where
  abbrev pub recv : Cmd Session ℤ
  recv s = ok (answers s.received) (record s { received = s.received + 1 })

  -- The loop that reads until it cannot; it returns the last answer of `recv`.
  unfoldable pub read_loop : ℕ → Cmd Session ℤ
  read_loop zero = λ _. out_of_fuel
  read_loop (suc k) =
      let rest = read_loop k in
      do
        n ← recv
        if not (ltb_ℤ (pos 0) n) then pure n else do modify (ngx_reusable_connection false); rest

  module _ (ngx_add_timer : ℕ → Event → Event) (ngx_del_timer : Event → Event)
      (ngx_handle_read_event : Cmd Event ℤ) (ngx_etimedout : ℤ) where
    -- What the handler does with an event that is ready.
    unfoldable pub drain : ℕ → Cmd Session (Unit {0})
    unfolding fail
    drain k = do n ← read_loop k; fail (not (eqb_ℤ n ngx_again)) ngx_error

    unfoldable pub discard : ℕ → NdgStreamDiscardConf → Cmd Session (Unit {0})
    unfolding fail drain
    discard k cf = do
      s ← get
      fail s.event.timedout ngx_etimedout
      fail s.close ngx_error
      if s.event.ready then drain k else pure tt
      on_event (wait_for ngx_add_timer ngx_del_timer ngx_handle_read_event cf.timeout true)

    -- `discard_read_handler`; `close_session` is nginx's end of a session.
    unfoldable pub discard_read_handler :
        (close_session : Session → Session) → ℕ → NdgStreamDiscardConf → Cmd Session (Unit {0})
    unfolding discard
    discard_read_handler close_session k cf =
        catch (discard k cf) (λ (e : NgxException). modify close_session)
