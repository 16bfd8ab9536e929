-- ===== src/Directives/Http.antt =====
-- http/echo/NdgEchoInit.hpp, http/filter/NdgFilterInit.hpp, http/test/NdgTestInit.hpp and
-- http/variables/NdgVariablesInit.hpp
use Prim.Native.Nat.{bit_or}
use ngx_cpp_dev.Base.{some, List, [], ◌∷◌, ◌++◌}
use ngx_cpp_dev.Directives.{
  Places, set_str_slot, set_keyval_slot, set_flag_slot, set_echo, loc_level, msg, headers, footer,
  enabled, Command, init, create_conf, merge_conf, module_null, http_module, Module, take_exactly,
  take1, take2,
}

module _ (at : Places) where
  abbrev pub echo_cmds : List Command
  echo_cmds =
      record {
        name = "ndg_echo";
        type = take1 at.http_loc;
        setter = set_echo;
        level = loc_level;
        field = msg;
      }
      ∷ []

  abbrev pub filter_cmds : List Command
  filter_cmds =
      record {
        name = "ndg_header";
        type = take2 at.http_loc;
        setter = set_keyval_slot;
        level = loc_level;
        field = headers;
      }
      ∷ record {
        name = "ndg_footer";
        type = take1 at.http_loc;
        setter = set_str_slot;
        level = loc_level;
        field = footer;
      }
      ∷ []

  abbrev pub test_cmds : List Command
  test_cmds =
      record {
        name = "ndg_test";
        type = take_exactly (bit_or (bit_or at.http_srv at.http_loc) at.conf_flag) 1;
        setter = set_flag_slot;
        level = loc_level;
        field = enabled;
      }
      ∷ []

  abbrev pub echo_module : Module
  echo_module = record {
    ctx = module_null 6 ++ some create_conf ∷ module_null 1;
    cmds = echo_cmds;
    kind = http_module;
    hooks = module_null 7;
  }

  abbrev pub filter_module : Module
  filter_module = record {
    ctx = module_null 1 ++ some init ∷ module_null 4 ++ some create_conf ∷ module_null 1;
    cmds = filter_cmds;
    kind = http_module;
    hooks = module_null 7;
  }

  abbrev pub test_module : Module
  test_module = record {
    ctx = module_null 1 ++ some init ∷ module_null 4 ++ some create_conf ∷ some merge_conf ∷ [];
    cmds = test_cmds;
    kind = http_module;
    hooks = module_null 7;
  }

-- Its `init` stands before the configuration is read.
abbrev pub variables_module : Module
variables_module = record {
  ctx = some init ∷ module_null 7;
  cmds = [];
  kind = http_module;
  hooks = module_null 7;
}
