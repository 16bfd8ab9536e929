-- ===== src/Tests/Proxy.antt =====
-- The theorems on legacy/upstream/NdgUpstreamHandler.hpp: an answer that announces 258 bytes, and a
-- request with six characters of arguments behind a chain of two nodes.
use ngx_cpp_dev.Base.{ℕ, ◌<◌, ◌≤◌, ◌==◌, ◌≡◌, ◌⊎◌, refl, arith, [], ◌∷◌, if◌then◌else◌}
use ngx_cpp_dev.Base.Int.{pos}
use ngx_cpp_dev.Base.Run.{ok}
use ngx_cpp_dev.Nginx.{Ptr, ngx_ok, ngx_again}
use ngx_cpp_dev.Memory.Chains.{Holds}
use ngx_cpp_dev.Buf.{IsValid}
use ngx_cpp_dev.Upstream.{Upstream, Given, process_header, create_request}
use ngx_cpp_dev.Upstream.Answer.{process_header-Encodes}
use ngx_cpp_dev.Upstream.Request.{four_characters, create_request-Holds}
use ngx_cpp_dev.Tests.Data.{plain, first_buf, first_cell, last_cell, memory, body-Holds, str}

abbrev bytes : Ptr → ℕ
bytes p = if p == 1000 then 1 else 2

abbrev upstream : Upstream
upstream = record {
  memory = memory;
  request_bufs = 100;
  buffer = first_buf;
  content_length_n = pos 0;
  status_n = 0;
  status = 0;
}

answer-IsValid : IsValid first_buf
answer-IsValid = record {
  in_memory = refl;
  start-le-pos = omega arith;
  pos-le-last = omega arith;
  last-le-end = omega arith;
  end-lt-limit = omega arith;
}

process_header-Encodes_example :
    ((3 < 2) × (process_header plain bytes upstream ≡ ok ngx_again upstream))
    ⊎ ((2 ≤ 3)
        × (v : Upstream) × (process_header plain bytes upstream ≡ ok ngx_ok v)
        × (v.content_length_n ≡ pos 258)
        × (v.status_n ≡ 200)
        × (v.status ≡ 200)
        × (v.buffer.pos_ptr ≡ 1002)
        × (v.buffer.last_ptr ≡ 1003)
        × (plain.size v.buffer ≡ 1))
process_header-Encodes_example =
    process_header-Encodes plain bytes upstream 258 answer-IsValid (refl, refl)

abbrev given : Given
given = record { buf = 40; link = 400; uninitialised = 7 }

create_request-Holds_example :
    (v : Upstream) × (create_request 3 given 800 (str 910 6) upstream ≡ ok ngx_ok v)
    × Holds v.memory v.request_bufs (first_cell ∷ last_cell ∷ four_characters given 910 ∷ [])
create_request-Holds_example =
    create_request-Holds given 3 800 (str 910 6) upstream refl body-Holds
      (record {
        buf_ne_null = omega arith;
        link_ne_null = omega arith;
        buf_free = refl;
        link_free = refl;
      })
      (omega arith)
