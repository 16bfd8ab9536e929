-- ===== src/StreamTime.antt =====
-- stream/time/NdgStreamTimeHandler.hpp: sends the time to a client and closes the session, with
-- `send` and `close` of ngxpp/NgxStreamSession.hpp. nginx's functions are arguments.
pub mod Outcome
use ngx_cpp_dev.Base.{
  ℕ, ◌+◌, ◌-◌, ◌%◌, ◌^◌, suc, Bool, true, false, not, if◌then◌else◌, Option, some,
}
use ngx_cpp_dev.Base.Int.{ℤ, pos, negsuc, eqb_ℤ}
use ngx_cpp_dev.Base.Run.{
  lifted, NgxException, Run, Cmd, ok, raised, fault, out_of_fuel, ◌>>=◌, ◌>>◌, catch, pure, modify,
  get,
}
use ngx_cpp_dev.Nginx.{Ptr, Buf, ngx_error}
use ngx_cpp_dev.Exception.{fail}
use ngx_cpp_dev.Memory.{Memory, modify_buf}
use ngx_cpp_dev.Buf.{printf, finish}
use ngx_cpp_dev.Pool.{temp_buffer, chain}
use ngx_cpp_dev.Chain.{set, node_finish}
use ngx_cpp_dev.Event.{Event, write_wait_for}

-- The functions that the module puts into a connection's events.
pub data Handler : Type 0 where
  block_read_handler : Handler
  time_write_handler : Handler

-- What the handlers read and write of a session, of its connection and of the write event.
pub record Session : Type 0 where
  pub memory : Memory
  pub event : Event
  pub close : Bool
  pub buffered : Bool
  pub read_handler : Option Handler
  pub write_handler : Option Handler

-- What nginx's allocator gives: a buffer of twenty bytes, and a link with what its memory held.
pub record Given : Type 0 where
  pub buf : Ptr
  pub created : Buf
  pub link : Ptr
  pub uninitialised : Ptr

abbrev pub in_memory : {A : Type 0} → Cmd Memory A → Cmd Session A
in_memory c s = lifted (λ x. record s { memory = x }) (c s.memory)

abbrev pub on_event : {A : Type 0} → Cmd Event A → Cmd Session A
on_event c s = lifted (λ x. record s { event = x }) (c s.event)

-- A return code as the `ngx_uint_t` of `ngx_stream_finalize_session`.
abbrev pub uint_of : ℤ → ℕ
uint_of (pos n) = n % 2 ^ 64
uint_of (negsuc n) = 2 ^ 64 - 1 - n % 2 ^ 64

abbrev pub ngx_stream_ok : ℤ
ngx_stream_ok = pos 200

-- `block_read_handler`
unfoldable pub block_read : Cmd Session (Unit {0})
block_read = pure tt

-- The node with the time in its buffer, which ends the chain and the answer.
unfoldable pub time_node : (ngx_slprintf : Ptr → Ptr → Ptr) → Given → Cmd Memory Ptr
time_node ngx_slprintf g = do
  buf ← temp_buffer g.buf g.created
  modify_buf buf (printf ngx_slprintf)
  modify_buf buf (finish true)
  n ← chain g.link g.uninitialised
  set n buf
  node_finish n
  pure n

module _ (ngx_stream_top_filter : Ptr → Bool → Cmd Session ℤ) where
  -- `NgxStreamSession::send(chain, from_upstream)`
  unfoldable pub send : Ptr → Bool → Cmd Session (Unit {0})
  unfolding fail
  send ch from_upstream = do
    rc ← ngx_stream_top_filter ch from_upstream
    fail (eqb_ℤ rc ngx_error) ngx_error

  module _ (ngx_stream_finalize_session : ℕ → Session → Session) (ngx_add_timer : ℕ → Event → Event)
      (ngx_del_timer : Event → Event) (ngx_handle_write_event : Cmd Event ℤ)
      (ngx_slprintf : Ptr → Ptr → Ptr) (ngx_etimedout : ℤ) where
    -- `NgxStreamSession::close(rc)`
    unfoldable pub close : ℤ → Cmd Session (Unit {0})
    close rc = modify (ngx_stream_finalize_session (uint_of rc))

    abbrev pub wait_for_100 : Cmd Session (Unit {0})
    wait_for_100 =
        on_event (write_wait_for ngx_add_timer ngx_del_timer ngx_handle_write_event 100 false)

    -- The node is sent; the session ends, or waits while the connection holds bytes back.
    unfoldable pub send_time : Ptr → Cmd Session (Unit {0})
    unfolding send close
    send_time n = do send n true; t ← get; if t.buffered then wait_for_100 else close ngx_stream_ok

    -- The body of `time_write_handler`'s `try`.
    unfoldable pub write_time : Given → Cmd Session (Unit {0})
    unfolding fail
    write_time g = do
      s ← get
      fail s.event.timedout ngx_etimedout
      fail s.close ngx_error
      if not s.event.ready
          then wait_for_100
          else do n ← in_memory (time_node ngx_slprintf g); send_time n

    unfoldable pub handle_write : Given → Cmd Session (Unit {0})
    unfolding write_time close
    handle_write g = catch (write_time g) (λ (e : NgxException). close e.code)

    -- `handler`; an exception is only logged.
    unfoldable pub handler : Given → Cmd Session (Unit {0})
    unfolding handle_write
    handler g =
        catch
          (do
            modify (λ s. record s {
              read_handler = some block_read_handler;
              write_handler = some time_write_handler;
            })
            handle_write g)
          (λ (e : NgxException). pure tt)
