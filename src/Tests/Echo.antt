-- ===== src/Tests/Echo.antt =====
-- The theorems on http/echo/NdgEchoHandler.hpp, legacy/echo/NdgEchoHandler.hpp and
-- legacy/subrequest/NdgSubrequestHandler.hpp, with replies of a few bytes.
use ngx_cpp_dev.Base.{true, ℕ, ◌+◌, refl, false, arith, [], ◌∷◌}
use ngx_cpp_dev.Base.Int.{ℤ, pos}
use ngx_cpp_dev.Base.Run.{◌>>◌, Cmd, ok, pure, ◌>>=◌, modify}
use ngx_cpp_dev.Nginx.{null, Ptr, NgxStr}
use ngx_cpp_dev.Memory.{load_link, load_buf}
use ngx_cpp_dev.Memory.Chains.{node, end, Holds}
use ngx_cpp_dev.Response.{Reply, Slot, in_memory}
use ngx_cpp_dev.Response.Sending.{TakesChain, Available}
use ngx_cpp_dev.Buf.{is_last}
use ngx_cpp_dev.LegacySubrequest.{Subrequest, Parent}
use ngx_cpp_dev.SubRequest
use ngx_cpp_dev.SubRequest.{other_handler}
use ngx_cpp_dev.LegacySubrequest.Ending.{World, Ended, ended, ended-Ended}
use ngx_cpp_dev.Tests.Data.{
  last_cell, header_list, header_list-IsValid, push_part, push_part-PushesBack, plain, memory, str,
}
use ngx_cpp_dev.Echo.{handler}
use ngx_cpp_dev.Echo.Length.{Handled, handler-Handled}

abbrev send_header : Cmd Reply ℤ
send_header r = ok (pos 0) (record r { header_sent = true })

-- Takes the bytes of the first node.
abbrev output_filter : Ptr → Cmd Reply ℤ
output_filter p = do
  n ← in_memory (load_link p)
  b ← in_memory (load_buf n.buf)
  modify (λ r. record r { passed = r.passed + plain.size b })
  pure (pos 0)

output_filter-TakesChain : TakesChain plain output_filter
unfolding load_link load_buf
output_filter-TakesChain p c r (node n end) = (pos 0, ground arith)

abbrev send_last : Cmd Reply ℤ
send_last = pure (pos 0)

abbrev slot : ℕ → Slot
slot n = record { buf = 10 + n; link = 100 + n; uninitialised = 5; copy = 800 + n }

slot-Available : (n : ℕ) → Available (slot n)
slot-Available n = record {
  buf_ne_null = omega arith;
  link_ne_null = omega arith;
  copy_ne_null = omega arith;
}

abbrev reply : Reply
reply = record {
  memory = memory;
  header_sent = false;
  header_only = false;
  status = 0;
  content_length_n = pos 0;
  passed = 0;
}

handler-Handled_example :
    Handled plain send_header output_filter send_last
      (slot 1)
      (slot 2)
      (slot 3)
      2
      (pos 0)
      (pos 0)
      (str 900 4)
      (str 910 2)
      reply
      (handler send_header output_filter send_last
        (slot 1)
        (slot 2)
        (slot 3)
        2
        (pos 0)
        (str 900 4)
        (str 910 2)
        reply)
handler-Handled_example =
    handler-Handled plain send_header output_filter send_last (slot 1) (slot 2) (slot 3) 2 (pos 0)
      (pos 0) (str 900 4) (str 910 2) (λ r. refl) output_filter-TakesChain (λ r. (pos 0, refl))
      (slot-Available 1) (slot-Available 2) (slot-Available 3) (omega arith) reply refl

abbrev variable_text : Cmd Reply NgxStr
variable_text = pure (str 900 4)

-- The subrequest's body is node 200 alone.
last-Holds : Holds memory 200 (last_cell ∷ [])
last-Holds =
    node (record { node_ne_null = omega arith; buf_ne_null = omega arith; link = refl; buf = refl })
      end

abbrev subrequest : Subrequest
subrequest = record { status = 200; headers = header_list; out = 200 }

abbrev parent : Parent
parent = record { reply = reply; headers_out = header_list }

abbrev request_at : Ptr → SubRequest.Request
request_at p = record {
  headers_part = p;
  headers_last = p;
  variables = p + 8;
  write_event_handler = other_handler;
}

abbrev world : World
world = record {
  requests = record {
    parent = request_at 900;
    sub = request_at 940;
    arrays = λ p i. record {
      len = 0;
      data_ptr = null;
      valid = false;
      not_found = true;
      no_cacheable = false;
    };
  };
  parent = parent;
  finalized = [];
}

abbrev idle : Cmd World (Unit {0})
idle s = ok tt s

ended-Ended_example :
    Ended plain push_part send_header output_filter send_last idle idle
      (pos 0)
      subrequest
      14
      world
      (ended plain push_part send_header output_filter send_last idle idle
        (pos 0)
        3
        subrequest
        700
        (slot 1)
        world)
unfolding is_last
ended-Ended_example =
    ended-Ended plain push_part send_header output_filter send_last idle idle (pos 0) (λ r. refl)
      output_filter-TakesChain (λ r. (pos 0, refl)) push_part-PushesBack 3 subrequest 700 (slot 1)
      world last_cell (slot-Available 1) last-Holds refl (omega arith) refl refl header_list-IsValid
      header_list-IsValid (omega arith)
