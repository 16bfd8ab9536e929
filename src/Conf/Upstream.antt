-- ===== src/Conf/Upstream.antt =====
-- legacy/upstream/NdgUpstreamConf.hpp
use ngx_cpp_dev.Base.{ℕ, ◌*◌}

-- The fields of `ngx_http_upstream_conf_t` that `create` sets.
pub record NdgUpstreamConf : Type 0 where
  pub connect_timeout : ℕ
  pub send_timeout : ℕ
  pub read_timeout : ℕ
  pub buffer_size : ℕ

unfoldable pub create : (ngx_pagesize : ℕ) → NdgUpstreamConf
create ngx_pagesize = record {
  connect_timeout = 1000 * 30;
  send_timeout = 1000 * 30;
  read_timeout = 1000 * 30;
  buffer_size = ngx_pagesize;
}
