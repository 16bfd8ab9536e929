-- ===== src/Upstream/Start.antt =====
-- The helper of ngxpp/NgxUpstream.hpp that starts a request to an upstream, and the handler of
-- legacy/upstream/NdgUpstreamHandler.hpp that uses it. nginx's functions are arguments.
pub mod Started
use ngx_cpp_dev.Base.{ℕ, ◌+◌, Bool, true, false, not, Option, none, some, is_some, if◌then◌else◌}
use ngx_cpp_dev.Base.Int.{ℤ, ltb_ℤ, eqb_ℤ}
use ngx_cpp_dev.Base.Run.{
  NgxException, Cmd, ok, raised, fault, out_of_fuel, ◌>>=◌, ◌>>◌, catch, pure, modify, get,
}
use ngx_cpp_dev.Nginx.{
  Ptr, is_null, ngx_ok, ngx_error, ngx_done, ngx_http_special_response, ngx_http_not_allowed,
  ngx_http_internal_server_error,
}
use ngx_cpp_dev.Exception.{require, require_rc, fail}
use ngx_cpp_dev.Response.{method}

-- The functions that an upstream calls, null where there is none.
pub record Callbacks : Type 0 where
  pub create_request : Ptr
  pub reinit_request : Ptr
  pub process_header : Ptr
  pub finalize_request : Ptr

-- `ngx_http_upstream_t`, with the fields that the helper sets.
pub record State : Type 0 where
  pub callbacks : Callbacks
  pub conf : Ptr
  pub buffering : Bool

-- The request: its method, its upstream, none until it is made, and how often it is in use.
pub record Request : Type 0 where
  pub method : ℕ
  pub upstream : Option State
  pub count : ℕ

-- A change of the request's upstream, which is there after `create`; a null one is a fault.
abbrev pub on_upstream : (State → State) → Cmd Request (Unit {0})
on_upstream f r = elim r.upstream [
  | none ↦ fault
  | some u ↦ ok tt (record r { upstream = some (f u) })
]

-- `NgxUpstream::conf(cf)` and `buffering(flag)`
unfoldable pub set_conf : (cf : Ptr) → (buffering : Bool) → Cmd Request (Unit {0})
set_conf cf buffering = on_upstream (λ u. record u { conf = cf; buffering = buffering })

unfoldable pub set_buffering : Bool → Cmd Request (Unit {0})
set_buffering flag = on_upstream (λ u. record u { buffering = flag })

-- `NgxUpstreamHelper::create()`, which its constructor calls.
unfoldable pub create : (ngx_http_upstream_create : Cmd Request ℤ) → Cmd Request (Unit {0})
unfolding require
create ngx_http_upstream_create = do
  r ← get
  if is_some r.upstream then pure tt else do
    rc ← ngx_http_upstream_create
    require (eqb_ℤ rc ngx_ok) ngx_http_internal_server_error

-- The callbacks of the helper's type, unless others are set; and a `finalize_request` in any case.
unfoldable pub set_callbacks : Callbacks → (default_finalize : Ptr) → Callbacks → Callbacks
set_callbacks own default_finalize old =
    let cbs = if is_null old.create_request then own else old in
    if is_null cbs.finalize_request then record cbs { finalize_request = default_finalize } else cbs

module _ (ngx_http_upstream_init : Request → Request)
    (ngx_http_read_client_request_body : (Request → Request) → Cmd Request ℤ)
    (ngx_http_discard_request_body : Cmd Request ℤ) where
  -- The end of `start`: the upstream starts when the body was read, or at once when it is dropped.
  unfoldable pub start_body : (read_body : Bool) → Cmd Request (Unit {0})
  unfolding fail require_rc
  start_body read_body =
      if read_body
      then (do
        rc ← ngx_http_read_client_request_body ngx_http_upstream_init
        fail (not (ltb_ℤ rc ngx_http_special_response)) ngx_error)
      else do
        rc ← ngx_http_discard_request_body
        require_rc rc ngx_ok
        modify (λ r. record r { count = r.count + 1 })
        modify ngx_http_upstream_init

  -- `start(read_body)`
  unfoldable pub start : Callbacks → (default_finalize : Ptr) → (read_body : Bool) → Cmd Request ℤ
  unfolding start_body set_callbacks
  start own default_finalize read_body = do
    on_upstream (λ u. record u { callbacks = set_callbacks own default_finalize u.callbacks })
    start_body read_body
    pure ngx_done

  -- `NdgUpstreamHandler::handler`, first the body of its `try`; `cf` is where the module's
  -- `ngx_http_upstream_conf_t` is.
  unfoldable pub run_handler :
      (ngx_http_upstream_create : Cmd Request ℤ)
      → Callbacks
      → (default_finalize : Ptr) → (get_method : ℕ) → (cf : Ptr) → (buffering : Bool)
      → Cmd Request ℤ
  unfolding start create set_conf method
  run_handler ngx_http_upstream_create own default_finalize get_method cf buffering = do
    r ← get
    if not (method r.method get_method) then pure ngx_http_not_allowed else do
      create ngx_http_upstream_create
      set_conf cf buffering
      start own default_finalize false

  unfoldable pub handler :
      (ngx_http_upstream_create : Cmd Request ℤ)
      → Callbacks
      → (default_finalize : Ptr) → (get_method : ℕ) → (cf : Ptr) → (buffering : Bool)
      → Cmd Request ℤ
  unfolding run_handler
  handler ngx_http_upstream_create own default_finalize get_method cf buffering =
      catch (run_handler ngx_http_upstream_create own default_finalize get_method cf buffering)
        (λ (e : NgxException). pure e.code)
