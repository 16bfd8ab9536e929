-- ===== src/Conf/Shmem.antt =====
-- legacy/shmem/NdgShmemConf.hpp
use ngx_cpp_dev.Base.{ℕ}
use ngx_cpp_dev.Value.{init}
use ngx_cpp_dev.Conf.Word.{word}

pub record NdgShmemConf : Type 0 where
  pub size : ℕ

unfoldable pub create : NdgShmemConf
create = record { size = word.unset_value }

-- The configuration after `init(cf, conf)`.
unfoldable pub init_conf : NdgShmemConf → NdgShmemConf
unfolding init
init_conf conf = record { size = init word.invalid conf.size 1024 }
