-- ===== src/Conf/Subrequest.antt =====
-- legacy/subrequest/NdgSubrequestConf.hpp
use ngx_cpp_dev.Nginx.{Ptr, NgxStr, ngx_null_string}
use ngx_cpp_dev.Value.{str_invalid, merge}

pub record NdgSubrequestConf : Type 0 where
  pub loc : NgxStr
  pub args : NgxStr

-- The pool gives zeroed memory.
unfoldable pub create : NdgSubrequestConf
create = record { loc = ngx_null_string; args = ngx_null_string }

-- `echo_path` is where the literal "/echo" lies.
unfoldable pub merge_conf :
    (echo_path : Ptr) → NdgSubrequestConf → NdgSubrequestConf → NdgSubrequestConf
unfolding merge str_invalid
merge_conf echo_path prev conf = record {
  loc = merge str_invalid conf.loc prev.loc (record { len = 5; data_ptr = echo_path });
  args = merge str_invalid conf.args prev.args ngx_null_string;
}
