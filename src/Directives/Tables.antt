-- ===== src/Directives/Tables.antt =====
-- The modules of the repository, each with its table.
use ngx_cpp_dev.Directives.{Places, Module}
use ngx_cpp_dev.Directives.Http
use ngx_cpp_dev.Directives.Legacy
use ngx_cpp_dev.Directives.Stream

-- The modules of the repository.
pub data NdgModule : Type 0 where
  echo filter test variables : NdgModule
  legacy_echo legacy_footer load_balance shmem subrequest upstream data_hook : NdgModule
  discard time : NdgModule

abbrev pub module_of : Places → NdgModule → Module
module_of at echo = Http.echo_module at
module_of at filter = Http.filter_module at
module_of at test = Http.test_module at
module_of at variables = Http.variables_module
module_of at legacy_echo = Legacy.echo_module at
module_of at legacy_footer = Legacy.footer_module at
module_of at load_balance = Legacy.load_balance_module at
module_of at shmem = Legacy.shmem_module at
module_of at subrequest = Legacy.subrequest_module at
module_of at upstream = Legacy.upstream_module at
module_of at data_hook = Legacy.data_hook_module
module_of at discard = Stream.discard_module at
module_of at time = Stream.time_module at
