-- ===== src/Directives/Setters.antt =====
-- The setters of the files Ndg*Init.hpp. nginx's own slot functions and `ngx_http_upstream_add` are
-- arguments; a setter answers null, which is `NGX_CONF_OK`, or a pointer to an error.
pub mod Installs
use ngx_cpp_dev.Base.{ℕ, Option, not, List, if◌then◌else◌}
use ngx_cpp_dev.Base.Run.{ok, Cmd, lifted, ◌>>=◌, ◌>>◌, pure, modify}
use ngx_cpp_dev.Nginx.{Ptr, null, is_null, NgxStr}
use ngx_cpp_dev.NgxArray.{Array, at}
use ngx_cpp_dev.NgxScript.{Compiled, NgxComplexValue, value_init}
use ngx_cpp_dev.NgxHttpModule.{Conf, content_handler, upstream_init}
use ngx_cpp_dev.NgxStreamModule

-- nginx's configuration, and the module's own, which the setter is called with.
pub record Setting (C : Type 0) : Type 0 where
  pub conf : Conf
  pub own : C

-- `NGX_CONF_OK` and `NGX_CONF_ERROR`, which is `(char*) -1`.
abbrev pub ngx_conf_ok : Ptr
ngx_conf_ok = null

abbrev pub ngx_conf_error : Ptr
ngx_conf_error = 18446744073709551615

abbrev pub on_conf : {C A : Type 0} → Cmd Conf A → Cmd (Setting C) A
on_conf m s = lifted (λ x. record s { conf = x }) (m s.conf)

abbrev pub on_own : {C A : Type 0} → Cmd C A → Cmd (Setting C) A
on_own m s = lifted (λ x. record s { own = x }) (m s.own)

-- A slot function of nginx, on the configuration that it fills.
abbrev pub call_slot : {C : Type 0} → (C → Ptr × C) → Cmd C Ptr
call_slot slot c = ok (slot c).0 (slot c).1

-- `NgxConfig::args(cf)`, the words of a directive with its name first.
unfoldable pub config_args : Array NgxStr → Array NgxStr
config_args words = words

module _ {C : Type 0} (handler : Ptr) where
  -- `set_echo` of http/echo
  unfoldable pub set_echo : (ngx_conf_set_str_slot : C → Ptr × C) → Cmd (Setting C) Ptr
  unfolding content_handler
  set_echo ngx_conf_set_str_slot = do
    rc ← on_own (call_slot ngx_conf_set_str_slot)
    if not (is_null rc) then pure rc else do on_conf (content_handler handler); pure ngx_conf_ok

  -- `set_subrequest_loc`: what the slot function answers is not looked at.
  unfoldable pub set_subrequest_loc : (ngx_conf_set_str_slot : C → Ptr × C) → Cmd (Setting C) Ptr
  unfolding content_handler
  set_subrequest_loc ngx_conf_set_str_slot = do
    on_own (call_slot ngx_conf_set_str_slot)
    on_conf (content_handler handler)
    pure ngx_conf_ok

  -- `set_upstream_pass`: `upstream_add` gives the upstream of an address, null for an error, and
  -- `put` stores it in the module's configuration.
  unfoldable pub set_upstream_pass :
      (upstream_add : NgxStr → Ptr) → (put : Ptr → C → C) → Array NgxStr → Cmd (Setting C) Ptr
  unfolding content_handler config_args
  set_upstream_pass upstream_add put words = do
    url ← at (config_args words) 1
    on_own (modify (put (upstream_add url)))
    if is_null (upstream_add url)
        then pure ngx_conf_error
        else do on_conf (content_handler handler); pure ngx_conf_ok

  -- `set_load_balance`
  unfoldable pub set_load_balance : Cmd (Setting C) Ptr
  unfolding upstream_init
  set_load_balance = do on_conf (upstream_init handler 0); pure ngx_conf_ok

-- `set_echo` of legacy/echo, which compiles its argument.
unfoldable pub set_script_echo :
    (handler : Ptr)
    → (ngx_compile_complex_value : NgxStr → Compiled) → Array NgxStr
    → Cmd (Setting NgxComplexValue) Ptr
unfolding content_handler
set_script_echo handler ngx_compile_complex_value words = do
  source ← at words 1
  on_own (value_init ngx_compile_complex_value source)
  on_conf (content_handler handler)
  pure ngx_conf_ok

-- `set_discard` and `set_time` of the stream modules.
unfoldable pub set_discard : (handler : Ptr) → Cmd NgxStreamModule.Conf Ptr
unfolding NgxStreamModule.content_handler
set_discard handler = do NgxStreamModule.content_handler handler; pure ngx_conf_ok

unfoldable pub set_time : (handler : Ptr) → Cmd NgxStreamModule.Conf Ptr
unfolding NgxStreamModule.content_handler
set_time handler = do NgxStreamModule.content_handler handler; pure ngx_conf_ok
