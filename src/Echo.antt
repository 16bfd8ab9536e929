-- ===== src/Echo.antt =====
-- http/echo/NdgEchoHandler.hpp: answers a GET request with its arguments and a configured message.
pub mod Length
use ngx_cpp_dev.Base.{ℕ, ◌+◌, ◌%◌, ◌^◌, not, if◌then◌else◌}
use ngx_cpp_dev.Base.Int.{ℤ}
use ngx_cpp_dev.Base.Run.{NgxException, Cmd, ◌>>=◌, ◌>>◌, catch, pure}
use ngx_cpp_dev.Nginx.{Ptr, NgxStr, ngx_http_not_allowed}
use ngx_cpp_dev.NgxString.{str_empty, off_t_of}
use ngx_cpp_dev.Response.{Reply, Slot, method, discard, set_length, set_status, send_str, send_text}

-- `NGX_HTTP_GET`
abbrev pub ngx_http_get : ℕ
ngx_http_get = 2

-- The length of the answer, a `size_t`.
unfoldable pub answer_length : (msg args : NgxStr) → ℕ
answer_length msg args = if str_empty args then msg.len else (msg.len + (args.len + 1)) % 2 ^ 64

-- nginx's functions, and what its allocator gives to the three sends.
module _ (ngx_http_send_header : Cmd Reply ℤ) (ngx_http_output_filter : Ptr → Cmd Reply ℤ)
    (ngx_http_send_last : Cmd Reply ℤ) (for_args for_comma for_msg : Slot) where
  -- The arguments and a comma, if there are any.
  unfoldable pub send_args : NgxStr → Cmd Reply (Unit {0})
  send_args args = if str_empty args then pure tt else do
    send_str ngx_http_send_header ngx_http_output_filter for_args args
    send_text ngx_http_send_header ngx_http_output_filter for_comma 1
    pure tt

  unfoldable pub answer : (msg args : NgxStr) → Cmd Reply ℤ
  unfolding send_args
  answer msg args = do
    set_length (off_t_of (answer_length msg args))
    set_status 200
    send_args args
    send_str ngx_http_send_header ngx_http_output_filter for_msg msg
    ngx_http_send_last

  -- `handler`; `own` is the request's method, and `discarded` what nginx returns for its body.
  unfoldable pub handler : (own : ℕ) → (discarded : ℤ) → (msg args : NgxStr) → Cmd Reply ℤ
  unfolding answer
  handler own discarded msg args =
      catch
        (if not (method own ngx_http_get)
          then pure ngx_http_not_allowed
          else do discard discarded; answer msg args)
        (λ (e : NgxException). pure e.code)
