-- ===== src/Response.antt =====
-- ngxpp/NgxRequest.hpp: the body of a request, and the response that is sent with its headers first.
-- A reply is the part of `ngx_http_request_t` that the response reads and writes. nginx's functions
-- are arguments; `passed` counts the bytes of the body that nginx has taken from them.
pub mod Sending
pub mod Special
use Prim.Native.Nat.{bit_and}
use ngx_cpp_dev.Base.{ℕ, ◌+◌, ◌==◌, Bool, true, false, not, ◌&&◌, ◌||◌, if◌then◌else◌}
use ngx_cpp_dev.Base.Int.{ℤ, ltb_ℤ, eqb_ℤ}
use ngx_cpp_dev.Base.Run.{
  lifted, Run, Cmd, ok, raised, fault, out_of_fuel, ◌>>=◌, ◌>>◌, pure, modify, get,
}
use ngx_cpp_dev.Nginx.{Ptr, is_null, NgxStr, ngx_ok, ngx_error}
use ngx_cpp_dev.Exception.{require_rc, require_ptr, fail}
use ngx_cpp_dev.Memory.{Memory, set_buf, modify_buf}
use ngx_cpp_dev.Buf.{range_str}
use ngx_cpp_dev.Pool.{buffer, chain}

pub record Reply : Type 0 where
  pub memory : Memory
  pub header_sent : Bool
  pub header_only : Bool
  pub status : ℕ
  pub content_length_n : ℤ
  pub passed : ℕ

-- What nginx's allocator gives to a `send`: the addresses of a buffer, of a chain link, with what
-- the link's memory held, and of a copy of a string.
pub record Slot : Type 0 where
  pub buf : Ptr
  pub link : Ptr
  pub uninitialised : Ptr
  pub copy : Ptr

-- Commands on the memory of the reply.
abbrev pub in_memory : {A : Type 0} → Cmd Memory A → Cmd Reply A
in_memory c r = lifted (λ x. record r { memory = x }) (c r.memory)

-- `NgxRequest::method(x)`
unfoldable pub method : ℕ → ℕ → Bool
method own x = not (bit_and own x == 0)

-- `NgxRequestBody::discard()`; `rc` is what `ngx_http_discard_request_body` returns.
unfoldable pub discard : {S : Type 0} → (rc : ℤ) → Cmd S (Unit {0})
unfolding require_rc
discard rc = require_rc rc ngx_ok

-- `status(x)` and `length(len)`
unfoldable pub set_status : ℕ → Cmd Reply (Unit {0})
set_status x = modify (λ r. record r { status = x })

unfoldable pub set_length : ℤ → Cmd Reply (Unit {0})
set_length len = modify (λ r. record r { content_length_n = len })

-- `NgxPool::dup(string_ref)`
unfoldable pub dup : {S : Type 0} → (p : Ptr) → (len : ℕ) → Cmd S NgxStr
unfolding require_ptr
dup p len = do require_ptr p ngx_error; pure (record { len = len; data_ptr = p })

module _ (ngx_http_send_header : Cmd Reply ℤ) (ngx_http_output_filter : Ptr → Cmd Reply ℤ) where
  -- `send()`: the header goes out once, with the status 200 if none is set.
  unfoldable pub send_header : Cmd Reply ℤ
  unfolding fail
  send_header r =
      if r.header_sent
      then ok ngx_ok r
      else (do
        modify (λ r. if is_null r.status then record r { status = 200 } else r)
        rc ← ngx_http_send_header
        fail (eqb_ℤ rc ngx_error || ltb_ℤ ngx_ok rc) rc
        pure rc)
          r

  -- `send(ngx_chain_t*)`
  unfoldable pub send_chain : Ptr → Cmd Reply ℤ
  send_chain out = do
    send_header
    r ← get
    if not (is_null out) && not r.header_only then ngx_http_output_filter out else pure ngx_ok

  -- `send(ngx_buf_t*)`
  unfoldable pub send_buf : Slot → Ptr → Cmd Reply ℤ
  send_buf g b = do
    ch ← in_memory (chain g.link g.uninitialised)
    in_memory (set_buf ch b)
    send_chain ch

  -- `send(ngx_str_t*)`
  unfoldable pub send_str : Slot → NgxStr → Cmd Reply ℤ
  send_str g s = do
    b ← in_memory (buffer g.buf)
    in_memory (modify_buf b (range_str s))
    send_buf g b

  -- `send(string_ref)` of `len` characters.
  unfoldable pub send_text : Slot → ℕ → Cmd Reply ℤ
  unfolding dup
  send_text g len = do s ← dup g.copy len; send_str g s
