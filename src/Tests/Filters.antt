-- ===== src/Tests/Filters.antt =====
-- The theorems on http/filter/NdgFilterHandler.hpp, on a response of seven bytes and a footer of six.
use ngx_cpp_dev.Base.{◌==◌, if◌then◌else◌, ◌⊎◌, refl, true, none, some, [], ◌∷◌, arith}
use ngx_cpp_dev.Base.Int.{pos}
use ngx_cpp_dev.Nginx.{null, Buf, zero_buf}
use ngx_cpp_dev.Memory.{Memory}
use ngx_cpp_dev.Memory.Chains.{Cell, end, node}
use ngx_cpp_dev.Filter.{NdgFilterConf, Request, Given, do_header_filter, do_body_filter}
use ngx_cpp_dev.Filter.Footer.{ftr_of, IsFresh}
use ngx_cpp_dev.Filter.Header.{HeaderFiltered, do_header_filter-HeaderFiltered}
use ngx_cpp_dev.Filter.Body.{BodyFiltered, do_body_filter-BodyFiltered}
use ngx_cpp_dev.Filter.Length.{
  Announced, Unannounced, NoMemory, filters-Announced, filters-Unannounced,
}
use ngx_cpp_dev.Tests.Data.{
  plain, first_cell, last_cell, memory, body-Holds, str, header_list, header_list-IsValid,
  push_part, push_part-PushesBack,
}

abbrev given : Given
given = record { ctx = true; buf = 40; link = 400; uninitialised = 12345 }

abbrev conf : NdgFilterConf
conf = record {
  headers = some (record { key = str 600 3; value = str 610 3 } ∷ []);
  footer = str 700 6;
}

abbrev new_request : Request
new_request = record {
  memory = memory;
  ctx = none;
  content_length_n = pos 7;
  headers_out = header_list;
}

given-IsFresh : IsFresh plain given (ftr_of conf.footer) memory
given-IsFresh = record {
  buf_ne_null = omega arith;
  link_ne_null = omega arith;
  buf_free = refl;
  link_free = refl;
}

do_header_filter-HeaderFiltered_example :
    HeaderFiltered push_part given conf new_request none
      (do_header_filter push_part given conf new_request)
do_header_filter-HeaderFiltered_example =
    do_header_filter-HeaderFiltered push_part given conf new_request push_part-PushesBack
      header_list-IsValid

abbrev seen_request : Request
seen_request = record new_request { ctx = some 1 }

do_body_filter-BodyFiltered_example :
    BodyFiltered plain given conf.footer
      (ftr_of conf.footer)
      100
      (first_cell ∷ last_cell ∷ [])
      seen_request
      (some 1)
      (do_body_filter plain 3 given conf 100 seen_request)
do_body_filter-BodyFiltered_example =
    do_body_filter-BodyFiltered plain given conf 3 100 (first_cell ∷ last_cell ∷ []) seen_request
      body-Holds given-IsFresh (omega arith)

filters-Announced_example :
    Announced plain push_part given conf 3 100 new_request
    ⊎ NoMemory plain push_part given conf new_request
filters-Announced_example =
    filters-Announced plain push_part given conf new_request (first_cell ∷ last_cell ∷ []) 3 100
      push_part-PushesBack header_list-IsValid body-Holds given-IsFresh (omega arith) (refl, refl)
      refl refl refl refl (omega arith) (omega arith)

-- An empty body: one node with a buffer that only ends the response.
abbrev end_buf : Buf
end_buf = record zero_buf { last_buf = true; last_in_chain = true }

abbrev end_cell : Cell
end_cell = record { node_at = 100; buf_at = 10; buf = end_buf }

abbrev end_memory : Memory
end_memory = record {
  links = λ a. if a == 100 then some (record { buf = 10; next = null }) else none;
  bufs = λ a. if a == 10 then some end_buf else none;
}

abbrev empty_request : Request
empty_request = record {
  memory = end_memory;
  ctx = none;
  content_length_n = pos 0;
  headers_out = header_list;
}

filters-Unannounced_example :
    Unannounced plain push_part given conf 2 100 empty_request
    ⊎ NoMemory plain push_part given conf empty_request
filters-Unannounced_example =
    filters-Unannounced plain push_part given conf empty_request (end_cell ∷ []) 2 100
      push_part-PushesBack header_list-IsValid
      (node
        (record { node_ne_null = omega arith; buf_ne_null = omega arith; link = refl; buf = refl })
        end)
      (record {
        buf_ne_null = omega arith;
        link_ne_null = omega arith;
        buf_free = refl;
        link_free = refl;
      })
      (omega arith) refl refl refl refl refl refl
