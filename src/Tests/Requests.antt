-- ===== src/Tests/Requests.antt =====
-- The theorems on requests to other servers and on subrequests.
use ngx_cpp_dev.Base.{ℕ, ◌+◌, ◌≡◌, refl, true, false, none, some, inr}
use ngx_cpp_dev.Base.Int.{ℤ}
use ngx_cpp_dev.Base.Run.{Cmd, ok, pure}
use ngx_cpp_dev.Nginx.{ngx_ok}
use ngx_cpp_dev.Response.{method}
use ngx_cpp_dev.Variable.{VariableValue}
use ngx_cpp_dev.Upstream.Start.{Callbacks, State, Request, handler}
use ngx_cpp_dev.Upstream.Start.Started.{configured, dropped, handler-dropped}
use ngx_cpp_dev.SubRequest.{other_handler, PostSubrequest, create}
use ngx_cpp_dev.SubRequest
use ngx_cpp_dev.SubRequest.Own.{HasOwn, create-HasOwn}

abbrev no_callbacks : Callbacks
no_callbacks = record {
  create_request = 0;
  reinit_request = 0;
  process_header = 0;
  finalize_request = 0;
}

abbrev callbacks : Callbacks
callbacks = record {
  create_request = 61;
  reinit_request = 62;
  process_header = 63;
  finalize_request = 0;
}

abbrev upstream : State
upstream = record { callbacks = no_callbacks; conf = 0; buffering = false }

abbrev request : Request
request = record { method = 2; upstream = none; count = 1 }

abbrev upstream_create : Cmd Request ℤ
upstream_create r = ok ngx_ok (record r { upstream = some upstream })

abbrev upstream_init : Request → Request
upstream_init r = record r { count = r.count + 1 }

abbrev read_body : (Request → Request) → Cmd Request ℤ
read_body f r = ok ngx_ok (f r)

abbrev discard_body : Cmd Request ℤ
discard_body = pure ngx_ok

handler-dropped_example :
    handler upstream_init read_body discard_body upstream_create callbacks 64 2 800 true request
    ≡ dropped upstream_init read_body discard_body (
        discard_body (record request {
          upstream =
              some (configured upstream_init read_body discard_body callbacks 64 800 true upstream);
        }))
unfolding method
handler-dropped_example =
    handler-dropped upstream_init read_body discard_body upstream_create callbacks 64 2 800 true
      request (record request { upstream = some upstream }) upstream refl (refl, inr (refl, refl))

abbrev value : ℕ → VariableValue
value n = record { len = n; data_ptr = 900; valid = true; not_found = false; no_cacheable = false }

abbrev parent : SubRequest.Request
parent = record {
  headers_part = 1000;
  headers_last = 1000;
  variables = 1100;
  write_event_handler = other_handler;
}

abbrev requests : SubRequest.State
requests = record { parent = parent; sub = parent; arrays = λ q i. value (q + i) }

-- The headers are copied with the parent's pointer to the last part.
abbrev subrequest : PostSubrequest → Cmd SubRequest.State ℤ
subrequest psr s = ok ngx_ok (record s { sub = record parent { headers_part = 2000 } })

create-HasOwn_example :
    (u : SubRequest.State) × (create subrequest true 3 70 0 1200 requests ≡ ok tt u)
    × HasOwn 3 1200 (record requests { sub = record parent { headers_part = 2000 } }) u
create-HasOwn_example =
    create-HasOwn subrequest 3 70 0 1200 requests
      (record requests { sub = record parent { headers_part = 2000 } }) refl refl refl
