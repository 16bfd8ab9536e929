-- ===== src/Pool.antt =====
-- ngxpp/NgxPool.hpp: allocation from nginx's memory pool. What nginx's allocator returns is an
-- argument, null when it has no memory; a null result is thrown as `NGX_ERROR`.
pub mod Objects
use ngx_cpp_dev.Base.Run.{Cmd, ◌>>◌, pure}
use ngx_cpp_dev.Nginx.{Buf, Ptr, null, zero_buf, ngx_error}
use ngx_cpp_dev.Exception.{require_ptr}
use ngx_cpp_dev.Memory.{Memory, store_buf, store_link}

-- `buffer()` with `n == 0`, which is `alloc<ngx_buf_t>()`: `p` is what `ngx_pcalloc` returns.
unfoldable pub buffer : (p : Ptr) → Cmd Memory Ptr
unfolding require_ptr
buffer p = do require_ptr p ngx_error; store_buf p zero_buf; pure p

-- `buffer(n)` with `n > 0`: `p` is what `ngx_create_temp_buf` returns, with `created` in it.
unfoldable pub temp_buffer : (p : Ptr) → (created : Buf) → Cmd Memory Ptr
unfolding require_ptr
temp_buffer p created = do require_ptr p ngx_error; store_buf p created; pure p

-- `chain()`: `p` is what `ngx_alloc_chain_link` returns, whose `buf` nginx does not initialise.
unfoldable pub chain : (p uninitialised : Ptr) → Cmd Memory Ptr
unfolding require_ptr
chain p uninitialised = do
  require_ptr p ngx_error
  store_link p (record { buf = uninitialised; next = null })
  pure p
