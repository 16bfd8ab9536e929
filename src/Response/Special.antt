-- ===== src/Response/Special.antt =====
-- The rest of ngxpp/NgxRequest.hpp: the body and the arguments of a request, the parts of a response
-- that nginx makes, and cleanup. nginx's functions are arguments.
use ngx_cpp_dev.Base.{ℕ, ◌==◌, Bool, not, Option, none, some, if◌then◌else◌}
use ngx_cpp_dev.Base.Int.{ℤ, ltb_ℤ}
use ngx_cpp_dev.Base.Run.{Cmd, ◌>>=◌, ◌>>◌, pure, modify}
use ngx_cpp_dev.Nginx.{
  Ptr, null, is_null, NgxStr, ngx_null_string, ngx_ok, ngx_error, ngx_done,
  ngx_http_special_response,
}
use ngx_cpp_dev.Exception.{fail, require_rc, require_ptr}
use ngx_cpp_dev.Response.{Reply}

-- `NgxRequestBody::bufs()`: the chain of the body `request_body`, which a request need not have.
unfoldable pub bufs : (request_body : Option Ptr) → Ptr
bufs none = null
bufs (some chain) = chain

-- `NgxRequest::arg(name)`: nginx writes the value of an argument that it finds.
unfoldable pub arg : (ngx_http_arg : NgxStr → NgxStr → NgxStr) → (name : NgxStr) → NgxStr
arg ngx_http_arg name = ngx_http_arg name ngx_null_string

module _ {S : Type 0} where
  -- `NgxRequestBody::read(f)`
  unfoldable pub read_body : (ngx_http_read_client_request_body : Cmd S ℤ) → Cmd S ℤ
  unfolding fail
  read_body ngx_http_read_client_request_body = do
    rc ← ngx_http_read_client_request_body
    fail (not (ltb_ℤ rc ngx_http_special_response)) rc
    pure ngx_done

  -- `NgxRequest::finalize(rc)` and `NgxResponse::finalize(rc)`
  unfoldable pub finalize_request : (ngx_http_finalize_request : ℤ → S → S) → ℤ → Cmd S (Unit {0})
  finalize_request ngx_http_finalize_request rc = modify (ngx_http_finalize_request rc)

  unfoldable pub finalize_response : (ngx_http_finalize_request : ℤ → S → S) → ℤ → Cmd S (Unit {0})
  finalize_response ngx_http_finalize_request rc = modify (ngx_http_finalize_request rc)

  -- `set_content_type()`
  unfoldable pub set_content_type : (ngx_http_set_content_type : Cmd S ℤ) → Cmd S (Unit {0})
  unfolding require_rc
  set_content_type ngx_http_set_content_type = do
    rc ← ngx_http_set_content_type
    require_rc rc ngx_ok

-- `original()`: a request that is its own main request.
unfoldable pub original : (request main : Ptr) → Bool
original request main = request == main

-- `status()` and `length()` of a response
unfoldable pub get_status : Reply → ℕ
get_status r = r.status

unfoldable pub get_length : Reply → ℤ
get_length r = r.content_length_n

-- `flush()` and `eof()`: `ngx_http_send_special` with the flag for each.
unfoldable pub flush :
    (ngx_http_send_special : ℕ → Cmd Reply ℤ) → (ngx_http_flush : ℕ) → Cmd Reply ℤ
flush ngx_http_send_special ngx_http_flush = ngx_http_send_special ngx_http_flush

unfoldable pub eof : (ngx_http_send_special : ℕ → Cmd Reply ℤ) → (ngx_http_last : ℕ) → Cmd Reply ℤ
eof ngx_http_send_special ngx_http_last = ngx_http_send_special ngx_http_last

-- `ngx_http_cleanup_t`
pub record HttpCleanup : Type 0 where
  pub handler : Ptr
  pub data_ptr : Ptr

-- `NgxRequestCleanup::add(f, n)` of the request at `r`: `cln` is what `ngx_http_cleanup_add` returns,
-- with `own` as its data, and the state is the cleanups by their addresses.
unfoldable pub add_cleanup :
    (cln own : Ptr) → (r f : Ptr) → (n : ℕ) → Cmd (Ptr → Option HttpCleanup) Ptr
unfolding require_ptr
add_cleanup cln own r f n = do
  require_ptr cln ngx_error
  modify (λ s p.
      if p == cln
      then some (record { handler = f; data_ptr = if is_null n then r else own })
      else s p)
  pure cln
