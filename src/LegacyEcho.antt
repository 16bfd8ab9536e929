-- ===== src/LegacyEcho.antt =====
-- legacy/echo/NdgEchoHandler.hpp, the module from which http/echo was made: the message is a string with
-- variables, and the response is flushed before it ends.
pub mod Same
use ngx_cpp_dev.Base.{ℕ, not, if◌then◌else◌}
use ngx_cpp_dev.Base.Int.{ℤ}
use ngx_cpp_dev.Base.Run.{NgxException, Cmd, ◌>>=◌, ◌>>◌, catch, pure}
use ngx_cpp_dev.Nginx.{Ptr, NgxStr, ngx_http_not_allowed}
use ngx_cpp_dev.NgxString.{off_t_of}
use ngx_cpp_dev.Response.{Reply, Slot, method, discard, set_length, set_status, send_str}
use ngx_cpp_dev.Echo.{ngx_http_get, answer_length, send_args}

module _ (ngx_http_send_header : Cmd Reply ℤ) (ngx_http_output_filter : Ptr → Cmd Reply ℤ)
    (ngx_http_send_flush ngx_http_send_last : Cmd Reply ℤ) (for_args for_comma for_msg : Slot) where
  unfoldable pub answer : (msg args : NgxStr) → Cmd Reply ℤ
  answer msg args = do
    set_length (off_t_of (answer_length msg args))
    set_status 200
    send_args ngx_http_send_header ngx_http_output_filter ngx_http_send_last for_args for_comma
        for_msg args
    send_str ngx_http_send_header ngx_http_output_filter for_msg msg
    ngx_http_send_flush
    ngx_http_send_last

  -- `process`, which is all of `handler`; `var` is what `cf.var.str(r)` does.
  unfoldable pub process :
      (own : ℕ) → (discarded : ℤ) → (var : Cmd Reply NgxStr) → (args : NgxStr) → Cmd Reply ℤ
  unfolding answer
  process own discarded var args =
      catch
        (if not (method own ngx_http_get)
          then pure ngx_http_not_allowed
          else do discard discarded; msg ← var; answer msg args)
        (λ (e : NgxException). pure e.code)
