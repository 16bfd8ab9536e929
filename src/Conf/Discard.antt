-- ===== src/Conf/Discard.antt =====
-- stream/discard/NdgStreamDiscardConf.hpp
use ngx_cpp_dev.Base.{ℕ}
use ngx_cpp_dev.Value.{merge}
use ngx_cpp_dev.Conf.Word.{word}

pub record NdgStreamDiscardConf : Type 0 where
  pub timeout : ℕ

-- The fresh value of `create`: the member's initialiser is `ngx_nil`.
unfoldable pub create : NdgStreamDiscardConf
create = record { timeout = word.unset_value }

-- The child configuration after `merge(cf, parent, child)`.
unfoldable pub merge_conf : NdgStreamDiscardConf → NdgStreamDiscardConf → NdgStreamDiscardConf
unfolding merge
merge_conf prev conf = record { timeout = merge word.invalid conf.timeout prev.timeout 5000 }
