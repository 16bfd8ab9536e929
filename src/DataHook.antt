-- ===== src/DataHook.antt =====
-- legacy/datahook/NdgDataHookConf.hpp and legacy/datahook/NdgDataHookHandler.hpp: filters that keep
-- the response of a subrequest for its parent. The state is the part of a request and of its parent
-- that the filters read and write.
pub mod Capture
use ngx_cpp_dev.Base.{ℕ, ◌==◌, Bool, true, false, not, Option, none, some, is_some, if◌then◌else◌}
use ngx_cpp_dev.Base.Int.{ℤ, pos, negsuc, ltb_ℤ, eqb_ℤ}
use ngx_cpp_dev.Base.Run.{
  lifted, NgxException, Run, Cmd, ok, raised, fault, out_of_fuel, ◌>>=◌, ◌>>◌, catch, pure, modify,
  get,
}
use ngx_cpp_dev.Nginx.{
  Ptr, null, is_null, ngx_ok, ngx_error, ngx_http_ok, ngx_http_internal_server_error,
}
use ngx_cpp_dev.Exception.{require, require_rc}
use ngx_cpp_dev.Memory.{Memory}
use ngx_cpp_dev.NgxFilter.{Tops, init, module_filter}

-- `NdgDataHookCtx`
pub record NdgDataHookCtx : Type 0 where
  pub hook : Bool
  pub status : ℤ
  pub headers : Ptr
  pub body : Ptr
  pub do_hook : Bool

-- A context as its initialisers leave it.
abbrev pub new_ctx : NdgDataHookCtx
new_ctx = record { hook = false; status = pos 0; headers = null; body = null; do_hook = false }

unfoldable pub hooking : NdgDataHookCtx → NdgDataHookCtx
hooking c = record c { hook = true; status = pos 0; headers = null; body = null }

-- `state(rc)`
unfoldable pub state : ℤ → NdgDataHookCtx → NdgDataHookCtx
state rc c =
    if not (eqb_ℤ c.status (pos 0))
    then c
    else if eqb_ℤ rc ngx_ok
    then record c { status = ngx_http_ok }
    else if ltb_ℤ rc ngx_ok
    then record c { status = ngx_http_internal_server_error }
    else record c { status = rc }

-- `parent` says whether the request has one, and `parent_ctx` and `ctx` are the contexts of the
-- parent and of the request, none until they are made.
pub record Request : Type 0 where
  pub memory : Memory
  pub parent : Bool
  pub parent_ctx : Option NdgDataHookCtx
  pub ctx : Option NdgDataHookCtx
  pub headers_out : Ptr
  pub filter_need_in_memory : Bool
  pub header_sent : Bool

-- What `ngx_chain_add_copy` returns, and the chain that it leaves.
pub record Copied : Type 0 where
  pub rc : ℤ
  pub chain : Ptr

-- `init(cf)` of the module `tag`
unfoldable pub init_filters : (tag : ℕ) → Tops → Run Tops ℤ
unfolding init
init_filters tag s = ok ngx_ok (init tag (some (module_filter tag)) (some (module_filter tag)) s)

-- `this_module::data(r)` and `this_module::data(r->parent)`; `given` says whether the pool has memory
-- for a context. A null parent is a fault.
abbrev pub data_of : (given : Bool) → Cmd Request NdgDataHookCtx
data_of given s = elim s.ctx [
  | none ↦
      (do require given ngx_error; modify (λ s. record s { ctx = some new_ctx }); pure new_ctx) s
  | some c ↦ ok c s
]

abbrev pub parent_data : (given : Bool) → Cmd Request NdgDataHookCtx
parent_data given s = if not s.parent then fault else elim s.parent_ctx [
  | none ↦
      (do
        require given ngx_error
        modify (λ s. record s { parent_ctx = some new_ctx })
        pure new_ctx)
        s
  | some c ↦ ok c s
]

-- What follows where the parent hooks the response: the headers are kept and go nowhere.
unfoldable pub keep_headers : (given : Bool) → NdgDataHookCtx → Cmd Request ℤ
unfolding require
keep_headers given pr = do
  c ← data_of given
  modify (λ s. record s {
    ctx = some (record c { do_hook = true });
    parent_ctx = some (record pr { headers = s.headers_out });
    filter_need_in_memory = true;
    header_sent = true;
  })
  pure ngx_ok

-- `header_filter`
unfoldable pub header_filter : (next : Cmd Request ℤ) → (given : Bool) → Cmd Request ℤ
unfolding keep_headers
header_filter next given =
    catch
      (do
        s ← get
        if not s.parent then next else elim s.parent_ctx [
          | none ↦ next
          | some pr ↦ if not pr.hook then next else keep_headers given pr
        ])
      (λ (e : NgxException). pure e.code)

module _ (ngx_chain_add_copy : (chain input : Ptr) → Memory → Copied × Memory) where
  -- What follows where the response is hooked: the parent's chain takes a copy of the input's links.
  unfoldable pub keep_body : (given : Bool) → Ptr → Cmd Request ℤ
  unfolding require_rc
  keep_body given input = do
    pr ← parent_data given
    s ← get
    let (copied, m) = ngx_chain_add_copy pr.body input s.memory
    modify (λ s. record s { memory = m; parent_ctx = some (record pr { body = copied.chain }) })
    require_rc copied.rc ngx_ok
    pure ngx_ok

  -- `body_filter`
  unfoldable pub body_filter : (next : Ptr → Cmd Request ℤ) → (given : Bool) → Ptr → Cmd Request ℤ
  unfolding keep_body
  body_filter next given input =
      catch
        (if is_null input then pure ngx_ok else do
          s ← get
          elim s.ctx [
            | none ↦ next input
            | some c ↦ if not c.do_hook then next input else keep_body given input
          ])
        (λ (e : NgxException). pure e.code)
