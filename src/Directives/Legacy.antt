-- ===== src/Directives/Legacy.antt =====
-- The files Ndg*Init.hpp of legacy/echo, legacy/footer, legacy/loadbalance, legacy/shmem,
-- legacy/subrequest, legacy/upstream and legacy/datahook.
use Prim.Native.Nat.{bit_or}
use ngx_cpp_dev.Base.{some, List, [], ◌∷◌, ◌++◌}
use ngx_cpp_dev.Directives.{
  Places, set_str_slot, set_keyval_slot, set_size_slot, set_script_echo, set_load_balance,
  set_subrequest_loc, set_upstream_pass, main_level, loc_level, no_level, msg, headers, footer,
  size, loc, args, no_field, Command, init, create_conf, init_conf, merge_conf, exit_master,
  module_null, http_module, Module, take_exactly,
}

module _ (at : Places) where
  -- With `ENABLE_SCRIPT`, which the module's configuration defines.
  abbrev pub echo_cmds : List Command
  echo_cmds =
      record {
        name = "ndg_echo";
        type = take_exactly at.http_loc 1;
        setter = set_script_echo;
        level = loc_level;
        field = msg;
      }
      ∷ []

  abbrev pub footer_cmds : List Command
  footer_cmds =
      record {
        name = "ndg_header";
        type = take_exactly at.http_loc 2;
        setter = set_keyval_slot;
        level = loc_level;
        field = headers;
      }
      ∷ record {
        name = "ndg_footer";
        type = take_exactly at.http_loc 1;
        setter = set_str_slot;
        level = loc_level;
        field = footer;
      }
      ∷ []

  abbrev pub load_balance_cmds : List Command
  load_balance_cmds =
      record {
        name = "ndg_load_balance";
        type = take_exactly at.http_ups 0;
        setter = set_load_balance;
        level = no_level;
        field = no_field;
      }
      ∷ []

  abbrev pub shmem_cmds : List Command
  shmem_cmds =
      record {
        name = "ndg_shmem_size";
        type = take_exactly at.http_main 1;
        setter = set_size_slot;
        level = main_level;
        field = size;
      }
      ∷ []

  abbrev pub subrequest_cmds : List Command
  subrequest_cmds =
      record {
        name = "ndg_subrequest_loc";
        type = take_exactly at.http_loc 1;
        setter = set_subrequest_loc;
        level = loc_level;
        field = loc;
      }
      ∷ record {
        name = "ndg_subrequest_args";
        type = take_exactly (bit_or at.http_srv at.http_loc) 1;
        setter = set_str_slot;
        level = loc_level;
        field = args;
      }
      ∷ []

  abbrev pub upstream_cmds : List Command
  upstream_cmds =
      record {
        name = "ndg_upstream_pass";
        type = take_exactly at.http_loc 1;
        setter = set_upstream_pass;
        level = loc_level;
        field = no_field;
      }
      ∷ []

  abbrev pub echo_module : Module
  echo_module = record {
    ctx = module_null 6 ++ some create_conf ∷ module_null 1;
    cmds = echo_cmds;
    kind = http_module;
    hooks = module_null 7;
  }

  abbrev pub footer_module : Module
  footer_module = record {
    ctx = module_null 1 ++ some init ∷ module_null 4 ++ some create_conf ∷ module_null 1;
    cmds = footer_cmds;
    kind = http_module;
    hooks = module_null 7;
  }

  abbrev pub load_balance_module : Module
  load_balance_module = record {
    ctx = module_null 8;
    cmds = load_balance_cmds;
    kind = http_module;
    hooks = module_null 7;
  }

  abbrev pub shmem_module : Module
  shmem_module = record {
    ctx = module_null 1 ++ some init ∷ some create_conf ∷ some init_conf ∷ module_null 4;
    cmds = shmem_cmds;
    kind = http_module;
    hooks = module_null 6 ++ some exit_master ∷ [];
  }

  abbrev pub subrequest_module : Module
  subrequest_module = record {
    ctx = module_null 6 ++ some create_conf ∷ some merge_conf ∷ [];
    cmds = subrequest_cmds;
    kind = http_module;
    hooks = module_null 7;
  }

  abbrev pub upstream_module : Module
  upstream_module = record {
    ctx = module_null 6 ++ some create_conf ∷ module_null 1;
    cmds = upstream_cmds;
    kind = http_module;
    hooks = module_null 7;
  }

abbrev pub data_hook_module : Module
data_hook_module = record {
  ctx = module_null 1 ++ some init ∷ module_null 6;
  cmds = [];
  kind = http_module;
  hooks = module_null 7;
}
