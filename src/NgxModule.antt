-- ===== src/NgxModule.antt =====
-- ngxpp/NgxModule.hpp: the configurations that nginx keeps for a module, and the context that the
-- module keeps with a request or a session. A module is its index in nginx's arrays.
pub mod Isolation
use ngx_cpp_dev.Base.{ℕ, ◌==◌, Option, none, some, Bool, if◌then◌else◌}
use ngx_cpp_dev.Base.Run.{Run, Cmd, ok, fault, ◌>>=◌, ◌>>◌, pure, modify, get}
use ngx_cpp_dev.Nginx.{Ptr, null, is_null, ngx_error}
use ngx_cpp_dev.Exception.{require_ptr}

-- `get<T>(conf)`: the pointer of the module in an array of configurations. The reference that
-- `get` returns for an object type needs a pointer that is not null.
unfoldable pub conf_get : {S : Type 0} → (index : ℕ) → (conf : ℕ → Ptr) → Cmd S Ptr
conf_get index conf = if is_null (conf index) then (λ _. fault) else pure (conf index)

-- `get<void>(conf)`, which gives the pointer as it is.
unfoldable pub conf_get_void : (index : ℕ) → (conf : ℕ → Ptr) → Ptr
conf_get_void index conf = conf index

-- The arrays that a request, a session or a parsed block points to.
pub record Confs : Type 0 where
  pub main_conf : ℕ → Ptr
  pub srv_conf : ℕ → Ptr
  pub loc_conf : ℕ → Ptr

unfoldable pub main : {S : Type 0} → (index : ℕ) → Confs → Cmd S Ptr
unfolding conf_get
main index r = conf_get index r.main_conf

unfoldable pub srv : {S : Type 0} → (index : ℕ) → Confs → Cmd S Ptr
unfolding conf_get
srv index r = conf_get index r.srv_conf

unfoldable pub loc : {S : Type 0} → (index : ℕ) → Confs → Cmd S Ptr
unfolding conf_get
loc index r = conf_get index r.loc_conf

-- `main(cf)`, `srv(cf)` and `loc(cf)`: `cf->ctx` points to the arrays of the block that is parsed.
-- `confs_at` is the memory of those.
module _ {S : Type 0} (confs_at : Ptr → Option Confs) where
  unfoldable pub ctx_confs : Ptr → Cmd S Confs
  ctx_confs p =
      if is_null p then (λ _. fault) else elim (confs_at p) [ none ↦ λ _. fault | some c ↦ pure c ]

  unfoldable pub main_cf : (index : ℕ) → (cf_ctx : Ptr) → Cmd S Ptr
  unfolding ctx_confs main
  main_cf index cf_ctx = do c ← ctx_confs cf_ctx; main index c

  unfoldable pub srv_cf : (index : ℕ) → (cf_ctx : Ptr) → Cmd S Ptr
  unfolding ctx_confs srv
  srv_cf index cf_ctx = do c ← ctx_confs cf_ctx; srv index c

  unfoldable pub loc_cf : (index : ℕ) → (cf_ctx : Ptr) → Cmd S Ptr
  unfolding ctx_confs loc
  loc_cf index cf_ctx = do c ← ctx_confs cf_ctx; loc index c

  -- `main(cycle)`: `http_index` is `ngx_http_module.index`, and `conf_ctx` the cycle's array, which
  -- has a null pointer there if nginx was configured without an `http` block.
  unfoldable pub main_cycle : (http_index index : ℕ) → (conf_ctx : ℕ → Ptr) → Cmd S Ptr
  unfolding ctx_confs main
  main_cycle http_index index conf_ctx = do c ← ctx_confs (conf_ctx http_index); main index c

-- `upstream(us)`, of the servers of an upstream, and `upstream(r)`: `servers` are those that
-- `r->upstream->conf->upstream` leads to, if the request has an upstream.
unfoldable pub upstream : {S : Type 0} → (index : ℕ) → (srv_conf : ℕ → Ptr) → Cmd S Ptr
unfolding conf_get
upstream index srv_conf = conf_get index srv_conf

unfoldable pub upstream_of : {S : Type 0} → (index : ℕ) → (servers : Option (ℕ → Ptr)) → Cmd S Ptr
unfolding upstream
upstream_of index servers = elim servers [
  | none ↦ λ _. fault
  | some srv_conf ↦ upstream index srv_conf
]

-- A module's `instance()`: it is made of the index that nginx has given the module by the time of the
-- first call, and the same from then on.
unfoldable pub instance_of : (ctx_index : ℕ) → Cmd (Option ℕ) ℕ
instance_of ctx_index none = ok ctx_index (some ctx_index)
instance_of ctx_index (some index) = ok index (some index)

-- `r->ctx`, and the objects of type `T` that its pointers lead to.
pub record Session (T : Type 0) : Type 0 where
  pub ctx : ℕ → Ptr
  pub objects : Ptr → Option T

module _ {T : Type 0} where
  -- `empty(r)` and `clear(r)`
  unfoldable pub empty : (index : ℕ) → Session T → Bool
  empty index s = is_null (s.ctx index)

  abbrev pub set_ctx : (index : ℕ) → Ptr → Session T → Session T
  set_ctx index p s = record s { ctx = λ i. if i == index then p else s.ctx i }

  unfoldable pub clear : (index : ℕ) → Session T → Session T
  clear index s = set_ctx index null s

  -- `alloc<T>(r)`, for a `T` that is made by default and for one that is made from the pool: `p` is
  -- what `ngx_pcalloc` returns and `made` what the constructor builds.
  unfoldable pub alloc : (made : T) → (p : Ptr) → Cmd (Session T) Ptr
  unfolding require_ptr
  alloc made p = do
    require_ptr p ngx_error
    modify (λ s. record s { objects = λ q. if q == p then some made else s.objects q })
    pure p

  -- `data<T>(r)`, a reference to the context, which is made if there is none.
  unfoldable pub data_of : (made : T) → (p : Ptr) → (index : ℕ) → Cmd (Session T) Ptr
  unfolding alloc empty
  data_of made p index s =
      (if empty index s
          then (do q ← alloc made p; modify (set_ctx index q); pure q)
          else pure (s.ctx index))
        s
