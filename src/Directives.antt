-- ===== src/Directives.antt =====
-- The command tables of the modules and the contexts that nginx reads beside them, as the files
-- Ndg*Init.hpp write them. The tables stand in the modules below; what the setters do in Setters.
pub mod Http
pub mod Legacy
pub mod Stream
pub mod Tables
pub mod Accepted
pub mod Setters
use Prim.Native.String.{String}
use Prim.Native.Nat.{bit_or}
use ngx_cpp_dev.Base.{ℕ, zero, suc, Option, none, some, List, [], ◌∷◌, ◌++◌}
use ngx_cpp_dev.Base.Int.{pos, negsuc}
use ngx_cpp_dev.NgxConfig.{ngx_take}

-- nginx's numbers for the places of a directive, `NGX_HTTP_MAIN_CONF` and so on, and for a flag.
pub record Places : Type 0 where
  pub http_main : ℕ
  pub http_srv : ℕ
  pub http_loc : ℕ
  pub http_ups : ℕ
  pub stream_srv : ℕ
  pub conf_flag : ℕ

-- The functions that the tables name: five of nginx, and the modules' own.
pub data Setter : Type 0 where
  set_str_slot set_keyval_slot set_msec_slot set_size_slot set_flag_slot : Setter
  set_echo set_script_echo set_load_balance set_subrequest_loc set_upstream_pass : Setter
  set_discard set_time : Setter

-- `NGX_HTTP_MAIN_CONF_OFFSET` and its kin; a zero stands where the setter does not look.
pub data Level : Type 0 where
  main_level srv_level loc_level no_level : Level

-- The members of the configurations that `offsetof` names.
pub data Field : Type 0 where
  msg headers footer enabled size timeout loc args no_field : Field

-- `ngx_command_t`
pub record Command : Type 0 where
  pub name : String
  pub type : Option ℕ
  pub setter : Setter
  pub level : Level
  pub field : Field

-- The functions of a module that nginx calls back.
pub data Callback : Type 0 where
  init create_conf init_conf merge_conf exit_master : Callback

-- `NGX_MODULE_NULL(n)`
abbrev pub module_null : ℕ → List (Option Callback)
module_null zero = []
module_null (suc n) = none ∷ module_null n

pub data Kind : Type 0 where
  http_module stream_module : Kind

-- `ngx_module_t`, with the entries of its context and the entries behind its kind.
pub record Module : Type 0 where
  pub ctx : List (Option Callback)
  pub cmds : List Command
  pub kind : Kind
  pub hooks : List (Option Callback)

-- `NgxTake(conf, n)`
abbrev pub take_exactly : (conf n : ℕ) → Option ℕ
take_exactly conf n = ngx_take conf (pos n) (negsuc 0)

-- `conf|NGX_CONF_TAKE1` and `conf|NGX_CONF_TAKE2`
abbrev pub take1 : (conf : ℕ) → Option ℕ
take1 conf = some (bit_or conf 2)

abbrev pub take2 : (conf : ℕ) → Option ℕ
take2 conf = some (bit_or conf 4)
