-- ===== src/Tests/Legacy.antt =====
-- The theorems on the older modules, and on the session that sends the time.
use ngx_cpp_dev.Base.{
  ℕ, ◌+◌, ◌==◌, ◌≡◌, refl, true, false, none, some, Option, List, [], ◌∷◌, arith, if◌then◌else◌,
  Bool,
}
use ngx_cpp_dev.Base.Int.{ℤ, pos}
use ngx_cpp_dev.Base.Run.{Cmd, ok, ◌>>=◌, pure}
use ngx_cpp_dev.Nginx.{Ptr, zero_buf, ngx_ok}
use ngx_cpp_dev.Memory.{Memory}
use ngx_cpp_dev.Buf.{is_last}
use ngx_cpp_dev.Filter
use ngx_cpp_dev.Filter.Footer.{IsFresh}
use ngx_cpp_dev.Filter.Body.{BodyFiltered}
use ngx_cpp_dev.LegacyFooter.{NdgFooterConf, do_body_filter}
use ngx_cpp_dev.LegacyFooter.Body.{ftr_of, legacy_body_filter-BodyFiltered}
use ngx_cpp_dev.Event.{Event}
use ngx_cpp_dev.StreamTime.{Session, Given, handle_write}
use ngx_cpp_dev.StreamTime.Outcome.{Ended, handle_write-Ended}
use ngx_cpp_dev.DataHook.{NdgDataHookCtx, new_ctx, Request, Copied, header_filter}
use ngx_cpp_dev.DataHook.Capture.{collected, passes, filters-collected}
use ngx_cpp_dev.LoadBalance.{Peers, PeerData, get_peer}
use ngx_cpp_dev.LoadBalance.Choice.{asks, ConnectsTo, get_peer-Chosen}
use ngx_cpp_dev.Base.{◌<◌}
use ngx_cpp_dev.Base.Run.{◌>>◌}
use ngx_cpp_dev.NgxRbtree.{Node, traverse}
use ngx_cpp_dev.NgxRbtree.Ascending.{Ascends, ordered, nothing, traverse-Ascends}
use ngx_cpp_dev.Tests.Data.{memory, body-Holds, plain, first_cell, last_cell, str, header_list}

abbrev footer_conf : NdgFooterConf
footer_conf = record { headers = none; footer = str 700 6 }

abbrev footer_given : Filter.Given
footer_given = record { ctx = true; buf = 40; link = 400; uninitialised = 12345 }

abbrev seen_request : Filter.Request
seen_request = record {
  memory = memory;
  ctx = some 1;
  content_length_n = pos 13;
  headers_out = header_list;
}

footer-IsFresh : IsFresh plain footer_given (ftr_of footer_conf.footer) memory
footer-IsFresh = record {
  buf_ne_null = omega arith;
  link_ne_null = omega arith;
  buf_free = refl;
  link_free = refl;
}

legacy_body_filter-BodyFiltered_example :
    BodyFiltered plain footer_given footer_conf.footer
      (ftr_of footer_conf.footer)
      100
      (first_cell ∷ last_cell ∷ [])
      seen_request
      (some 1)
      (do_body_filter plain 3 footer_given footer_conf 100 seen_request)
unfolding is_last
legacy_body_filter-BodyFiltered_example =
    legacy_body_filter-BodyFiltered plain footer_given footer_conf 3 100
      (first_cell ∷ last_cell ∷ []) seen_request body-Holds (refl, (refl, tt)) footer-IsFresh
      (omega arith)

abbrev top_filter : Ptr → Bool → Cmd Session ℤ
top_filter p from_upstream s = ok (pos 0) s

-- A session that is finalised is closed.
abbrev finalize : ℕ → Session → Session
finalize rc s = record s { close = true }

abbrev add_timer : ℕ → Event → Event
add_timer n ev = record ev { timer_set = true }

abbrev del_timer : Event → Event
del_timer ev = record ev { timer_set = false }

abbrev handle_event : Cmd Event ℤ
handle_event ev = ok (pos 0) ev

abbrev print_time : Ptr → Ptr → Ptr
print_time p e = p + 10

abbrev session : Session
session = record {
  memory = memory;
  event = record { ready = true; timedout = false; timer_set = false };
  close = false;
  buffered = false;
  read_handler = none;
  write_handler = none;
}

abbrev given : Given
given = record {
  buf = 40;
  created = record zero_buf {
    pos_ptr = 3000;
    last_ptr = 3000;
    start_ptr = 3000;
    end_ptr = 3020;
    temporary = true;
  };
  link = 400;
  uninitialised = 12345;
}

handle_write-Ended_example :
    Ended top_filter finalize add_timer del_timer handle_event print_time (pos 110) given session (
      handle_write top_filter finalize add_timer del_timer handle_event print_time
        (pos 110)
        given
        session)
handle_write-Ended_example =
    handle_write-Ended top_filter finalize add_timer del_timer handle_event print_time (pos 110)
      given session (omega arith) (omega arith)

-- A copy of a chain stands at the sum of the addresses.
abbrev add_copy : (chain input : Ptr) → Memory → Copied × Memory
add_copy chain input m = (record { rc = ngx_ok; chain = chain + input }, m)

abbrev hooking_ctx : NdgDataHookCtx
hooking_ctx = record new_ctx { hook = true }

abbrev subrequest : Request
subrequest = record {
  memory = memory;
  parent = true;
  parent_ctx = some hooking_ctx;
  ctx = none;
  headers_out = 777;
  filter_need_in_memory = false;
  header_sent = false;
}

abbrev next_header : Cmd Request ℤ
next_header = pure ngx_ok

abbrev next_body : Ptr → Cmd Request ℤ
next_body p = pure ngx_ok

filters-collected_example :
    (t : Request) × ((header_filter next_header true >>= λ rc.
    passes add_copy next_body true (100 ∷ 200 ∷ []))
        subrequest
      ≡ ok tt t)
    × (t.memory ≡ (collected add_copy (100 ∷ 200 ∷ []) hooking_ctx.body subrequest.memory).1)
    × (t.parent_ctx
        ≡ some (record hooking_ctx {
          headers = 777;
          body = (collected add_copy (100 ∷ 200 ∷ []) hooking_ctx.body subrequest.memory).0;
        }))
    × (t.header_sent ≡ true)
filters-collected_example =
    filters-collected add_copy next_header next_body true (100 ∷ 200 ∷ []) subrequest hooking_ctx
      refl refl refl (refl, (refl, tt))

abbrev peers : Peers
peers = record {
  single = false;
  number = 2;
  peer = λ i. record { sockaddr = 5000 + i; socklen = 16; name = 5100 + i };
}

abbrev peer_data : PeerData
peer_data = record {
  tries = 0;
  pc = record { sockaddr = 0; socklen = 0; name = 0; cached = true; connection = 0 };
}

abbrev rr_peer : Cmd PeerData ℤ
rr_peer = pure ngx_ok

get_peer-Chosen_example :
    (t : PeerData) × (t.tries ≡ 3)
    × (((asks rr_peer (7 ∷ 8 ∷ []) peers >> get_peer rr_peer 9 peers) peer_data ≡ ok ngx_ok t)
        × (i : ℕ) × (i < 2)
        × ConnectsTo rr_peer (peers.peer i) t)
get_peer-Chosen_example =
    get_peer-Chosen rr_peer (7 ∷ 8 ∷ []) 9 peers peer_data refl (omega arith) refl (omega arith)

-- A root at 20 with one child at 10; the sentinel is at 1.
abbrev nodes : Ptr → Option Node
nodes p =
    if p == 20
    then some (record { key = 5; left = 10; right = 1 })
    else if p == 10
    then some (record { key = 3; left = 1; right = 1 })
    else none

abbrev visited : Ptr → Cmd (List ℕ) (Unit {0})
visited p s = ok tt (p ∷ s)

traverse-Ascends_example :
    (traverse nodes 3 visited (record { root = 20; sentinel = 1 }) [] ≡ ok tt (20 ∷ 10 ∷ []))
    × Ascends 2 9 (3 ∷ 5 ∷ [])
traverse-Ascends_example =
    traverse-Ascends nodes visited 3 (record { root = 20; sentinel = 1 }) 2 9 (10 ∷ 20 ∷ []) []
      (ordered refl refl (ordered refl refl (nothing (omega arith)) (nothing (omega arith)))
        (nothing (omega arith)))
      (omega arith)
