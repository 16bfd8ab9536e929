-- ===== src/Directives/Stream.antt =====
-- stream/discard/NdgStreamDiscardInit.hpp and stream/time/NdgStreamTimeInit.hpp
use ngx_cpp_dev.Base.{some, List, [], ◌∷◌, ◌++◌}
use ngx_cpp_dev.Directives.{
  Places, set_msec_slot, set_discard, set_time, srv_level, timeout, no_field, Command, create_conf,
  merge_conf, module_null, stream_module, Module, take_exactly,
}

module _ (at : Places) where
  abbrev pub discard_cmds : List Command
  discard_cmds =
      record {
        name = "ndg_discard_time_out";
        type = take_exactly at.stream_srv 1;
        setter = set_msec_slot;
        level = srv_level;
        field = timeout;
      }
      ∷ record {
        name = "ndg_stream_discard";
        type = take_exactly at.stream_srv 0;
        setter = set_discard;
        level = srv_level;
        field = no_field;
      }
      ∷ []

  abbrev pub time_cmds : List Command
  time_cmds =
      record {
        name = "ndg_stream_time";
        type = take_exactly at.stream_srv 0;
        setter = set_time;
        level = srv_level;
        field = no_field;
      }
      ∷ []

  abbrev pub discard_module : Module
  discard_module = record {
    ctx = module_null 4 ++ some create_conf ∷ some merge_conf ∷ [];
    cmds = discard_cmds;
    kind = stream_module;
    hooks = module_null 7;
  }

  abbrev pub time_module : Module
  time_module = record {
    ctx = module_null 4 ++ module_null 2;
    cmds = time_cmds;
    kind = stream_module;
    hooks = module_null 7;
  }
