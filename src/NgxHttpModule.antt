-- ===== src/NgxHttpModule.antt =====
-- ngxpp/NgxHttpModule.hpp, and the modules that register with it: http/test/NdgTestHandler.hpp and
-- legacy/shmem/NdgShmemHandler.hpp, with the handler of the latter. The state is the part of nginx's
-- configuration that a registration changes.
pub mod Phases
use ngx_cpp_dev.Base.{ltb, ℕ, ◌+◌, ◌%◌, ◌^◌, ◌==◌, not, Option, List, if◌then◌else◌}
use ngx_cpp_dev.Base.Int.{ℤ}
use ngx_cpp_dev.Base.Run.{fault, lifted, Cmd, ◌>>=◌, ◌>>◌, pure, modify, get}
use ngx_cpp_dev.Nginx.{Ptr, is_null, ngx_ok, ngx_error}
use ngx_cpp_dev.Exception.{fail}
use ngx_cpp_dev.NgxArray.{Array, push}

pub record Conf : Type 0 where
  pub loc_handler : Ptr
  pub phases : ℕ → Array Ptr
  pub init_upstream : Ptr
  pub flags : ℕ

-- `NgxHttpCoreModule::handler(cf, f)`
unfoldable pub content_handler : (f : Ptr) → Cmd Conf (Unit {0})
content_handler f = modify (λ c. record c { loc_handler = f })

module _ (ngx_array_push : Ptr → List Ptr → Option (List Ptr)) where
  -- `NgxHttpCoreModule::handler(cf, f, p)`; no phase comes after nginx's `NGX_HTTP_LOG_PHASE`.
  unfoldable pub phase_handler : (log_phase : ℕ) → (f : Ptr) → (phase : ℕ) → Cmd Conf (Unit {0})
  phase_handler log_phase f phase c =
      if ltb log_phase phase
      then fault
      else lifted (λ a. record c { phases = λ i. if i == phase then a else c.phases i })
          (push ngx_array_push f (c.phases phase))

  -- `NdgTestHandler::init(cf)` and `NdgShmemHandler::init(cf)`, with the numbers of nginx's phases.
  unfoldable pub test_init : (log_phase rewrite_phase handler : ℕ) → Cmd Conf ℤ
  unfolding phase_handler
  test_init log_phase rewrite_phase handler = do
    phase_handler log_phase handler rewrite_phase
    pure ngx_ok

  unfoldable pub shmem_init : (log_phase handler : ℕ) → Cmd Conf ℤ
  unfolding phase_handler
  shmem_init log_phase handler = do phase_handler log_phase handler log_phase; pure ngx_ok

-- `NgxHttpUpstreamModule::init(cf, f, flags)`
unfoldable pub upstream_init : (f : Ptr) → (flags : ℕ) → Cmd Conf (Unit {0})
unfolding fail
upstream_init f flags = do
  c ← get
  fail (not (is_null c.init_upstream)) ngx_error
  modify (λ c. record c { init_upstream = f; flags = flags })

-- `NdgShmemHandler::handler`: the shared counter is a `long`, given by its 64 bits, which wrap here; the
-- source does not define a signed sum past `2 ^ 63 - 1`. `sent` is what the connection has sent.
unfoldable pub shmem_handler : (sent : ℕ) → Cmd ℕ ℤ
shmem_handler sent = do modify (λ counter. (counter + sent) % 2 ^ 64); pure ngx_ok
