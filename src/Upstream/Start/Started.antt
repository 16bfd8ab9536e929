-- ===== src/Upstream/Start/Started.antt =====
-- What has happened to a request when the handler of legacy/upstream/NdgUpstreamHandler.hpp returns.
use ngx_cpp_dev.Upstream.Start.{
  run_handler, start, start_body, set_conf, Callbacks, State, Request, create, set_callbacks,
  handler,
}
use ngx_cpp_dev.Base.{
  sym, ◌==◌, ℕ, ◌+◌, ◌≡◌, refl, ◌⊎◌, inl, inr, Bool, true, false, none, some, Bool-cases, arith,
  if◌then◌else◌,
}
use ngx_cpp_dev.Base.Int.{ℤ, eqb_ℤ}
use ngx_cpp_dev.Base.Run.{
  caught, NgxException, Run, Cmd, ok, raised, fault, out_of_fuel, ◌>>◌, pure,
}
use ngx_cpp_dev.Nginx.{Ptr, is_null, ngx_ok, ngx_done}
use ngx_cpp_dev.Exception.{require, require_rc, raise}
use ngx_cpp_dev.Response.{method}

-- Every callback that nginx calls without a test is there.
pub set_callbacks-there :
    (own : Callbacks) (default_finalize : Ptr) (old : Callbacks)
    → is_null own.create_request ≡ false
    → is_null default_finalize ≡ false
    → (is_null (set_callbacks own default_finalize old).create_request ≡ false)
      × (is_null (set_callbacks own default_finalize old).finalize_request ≡ false)
unfolding set_callbacks
set_callbacks-there own default_finalize old c d = (ground arith, ground arith)

module _ (ngx_http_upstream_init : Request → Request)
    (ngx_http_read_client_request_body : (Request → Request) → Cmd Request ℤ)
    (ngx_http_discard_request_body : Cmd Request ℤ) where
  -- What follows the drop of the body: the upstream starts, with one more use of the request.
  abbrev pub dropped : Run Request ℤ → Run Request ℤ
  dropped (ok rc t) =
      if eqb_ℤ rc ngx_ok
      then ok ngx_done (ngx_http_upstream_init (record t { count = t.count + 1 }))
      else ok rc t
  dropped (raised e t) = ok e.code t
  dropped fault = fault
  dropped out_of_fuel = out_of_fuel

  -- The handler's `catch`.
  abbrev guarded : Run Request ℤ → Run Request ℤ
  guarded = caught (λ (e : NgxException). pure e.code)

  start_body-dropped :
      (t : Request) (r : Run Request ℤ)
      → ngx_http_discard_request_body t ≡ r
      → guarded (
          (start_body ngx_http_upstream_init ngx_http_read_client_request_body
                ngx_http_discard_request_body false
              >> pure ngx_done)
            t)
        ≡ dropped r
  unfolding start_body require_rc require raise
  start_body-dropped t (ok rc u) e = elim (Bool-cases (eqb_ℤ rc ngx_ok)) [
    | inl good ↦ rw (e, good) refl
    | inr bad ↦ rw (e, bad) refl
  ]
  start_body-dropped t (raised x u) e = rw e refl
  start_body-dropped t fault e = rw e refl
  start_body-dropped t out_of_fuel e = rw e refl

  -- The request `t` has the upstream `u`, which `s` had, or which nginx has made for it.
  abbrev pub HasUpstream :
      (ngx_http_upstream_create : Cmd Request ℤ) → Request → Request → State → Type 0
  HasUpstream ngx_http_upstream_create s t u =
      (t.upstream ≡ some u)
      × ((t ≡ s) ⊎ ((s.upstream ≡ none) × (ngx_http_upstream_create s ≡ ok ngx_ok t)))

  create-ok :
      (ngx_http_upstream_create : Cmd Request ℤ) (s t : Request) (u : State)
      → HasUpstream ngx_http_upstream_create s t u
      → create ngx_http_upstream_create s ≡ ok tt t
  unfolding create require
  create-ok c s t u (there, inl same) = ground arith
  create-ok c s t u (there, inr (bare, made)) = ground (arith, made)

  -- The upstream as the handler leaves it, which had the callbacks of `u`.
  abbrev pub configured :
      Callbacks → (default_finalize cf : Ptr) → (buffering : Bool) → State → State
  configured own default_finalize cf buffering u =
      let bare = u.callbacks.create_request == 0 in
      record {
        callbacks = record {
          create_request = if bare then own.create_request else u.callbacks.create_request;
          reinit_request = if bare then own.reinit_request else u.callbacks.reinit_request;
          process_header = if bare then own.process_header else u.callbacks.process_header;
          finalize_request =
              if bare
              then (if own.finalize_request == 0 then default_finalize else own.finalize_request)
              else if u.callbacks.finalize_request == 0
              then default_finalize
              else u.callbacks.finalize_request;
        };
        conf = cf;
        buffering = buffering;
      }

  set_callbacks-configured :
      (own : Callbacks) (default_finalize cf : Ptr) (buffering : Bool) (u : State)
      → (record u {
        callbacks = set_callbacks own default_finalize u.callbacks;
        conf = cf;
        buffering = buffering;
      })
        ≡ configured own default_finalize cf buffering u
  unfolding set_callbacks
  set_callbacks-configured own default_finalize cf buffering u = ground arith

  -- For a request with the method GET, whose upstream is there or is made, the upstream gets the
  -- module's configuration; it gets the module's callbacks if it has no `create_request` yet, else it
  -- keeps its own, and in both cases the default `finalize_request` where there is none. Then the body
  -- is dropped, and where nginx accepts that, the upstream starts with one more use of the request,
  -- and the handler says that it is not done. Else the handler returns nginx's code, or the
  -- exception's.
  pub handler-dropped :
      (ngx_http_upstream_create : Cmd Request ℤ) (own : Callbacks) (default_finalize : Ptr)
      (get_method : ℕ) (cf : Ptr) (buffering : Bool) (s t : Request) (u : State)
      → method s.method get_method ≡ true
      → HasUpstream ngx_http_upstream_create s t u
      → handler ngx_http_upstream_init ngx_http_read_client_request_body
          ngx_http_discard_request_body ngx_http_upstream_create own default_finalize get_method cf
          buffering s
        ≡ dropped (
            ngx_http_discard_request_body
              (record t { upstream = some (configured own default_finalize cf buffering u) }))
  unfolding handler run_handler set_conf start
  handler-dropped c own default_finalize get_method cf buffering s t u get_ok has =
      rw
        (
          get_ok,
          create-ok c s t u has,
          has.0,
          sym (set_callbacks-configured own default_finalize cf buffering u),
        )
        (start_body-dropped _ _ refl)
