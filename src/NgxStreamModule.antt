-- ===== src/NgxStreamModule.antt =====
-- ngxpp/NgxStreamModule.hpp: how a stream module registers its handlers, before nginx 1.11.5 and since.
-- The state is the part of nginx's configuration that a registration changes.
use ngx_cpp_dev.Base.{ltb, ℕ, ◌==◌, Option, List, if◌then◌else◌}
use ngx_cpp_dev.Base.Run.{fault, lifted, Cmd, modify}
use ngx_cpp_dev.Nginx.{Ptr}
use ngx_cpp_dev.NgxArray.{Array, push}

pub record Conf : Type 0 where
  pub srv_handler : Ptr
  pub access_handler : Ptr
  pub limit_conn_handler : Ptr
  pub phases : ℕ → Array Ptr

-- `handler(cf, f)`
unfoldable pub content_handler : (f : Ptr) → Cmd Conf (Unit {0})
content_handler f = modify (λ c. record c { srv_handler = f })

-- `access(cf, f)` and `limit_conn(cf, f)`, which nginx keeps once for all servers.
unfoldable pub access : (f : Ptr) → Cmd Conf (Unit {0})
access f = modify (λ c. record c { access_handler = f })

unfoldable pub limit_conn : (f : Ptr) → Cmd Conf (Unit {0})
limit_conn f = modify (λ c. record c { limit_conn_handler = f })

-- `handler(cf, f, p)`; no phase comes after nginx's `NGX_STREAM_LOG_PHASE`.
unfoldable pub phase_handler :
    (ngx_array_push : Ptr → List Ptr → Option (List Ptr))
    → (log_phase : ℕ) → (f : Ptr) → (phase : ℕ) → Cmd Conf (Unit {0})
phase_handler ngx_array_push log_phase f phase c =
    if ltb log_phase phase
    then fault
    else lifted (λ a. record c { phases = λ i. if i == phase then a else c.phases i })
        (push ngx_array_push f (c.phases phase))
