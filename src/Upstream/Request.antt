-- ===== src/Upstream/Request.antt =====
-- What `create_request` of legacy/upstream/NdgUpstreamHandler.hpp adds to the request.
use mathlib.Core.Path.{subst}
use ngx_cpp_dev.Base.{sym, ℕ, ◌<◌, ◌==◌, ◌≡◌, ◌≢◌, false, List, [], ◌∷◌, ◌++◌, arith, length}
use ngx_cpp_dev.Base.Run.{ok}
use ngx_cpp_dev.Base.{true, ltb, if◌then◌else◌, ◌+◌}
use ngx_cpp_dev.Buf.{set_range, set_boundary}
use ngx_cpp_dev.Nginx.{Ptr, null, NgxStr, zero_buf, ngx_ok}
use ngx_cpp_dev.Memory.{Memory, update, load_link, load_buf, set_buf, modify_buf}
use ngx_cpp_dev.Memory.Chains.{Cell, Holds, end, node, has_node, has_buf, not_null, Holds-frame}
use ngx_cpp_dev.Buf.{range_str}
use ngx_cpp_dev.Pool.{buffer, chain}
use ngx_cpp_dev.Exception.{require_ptr}
use ngx_cpp_dev.Chain.Walk.{last_node}
use ngx_cpp_dev.Chain.Append.{append-Holds}
use ngx_cpp_dev.Upstream.{Upstream, Given, request, message, message_node, create_request}

module _ (g : Given) where
  abbrev message_cell : NgxStr → Cell
  message_cell msg = record { node_at = g.link; buf_at = g.buf; buf = range_str msg zero_buf }

  -- A node whose buffer has the four characters at `text` in memory, and no flag.
  abbrev pub four_characters : (text : Ptr) → Cell
  four_characters text = record {
    node_at = g.link;
    buf_at = g.buf;
    buf = record zero_buf {
      pos_ptr = text;
      last_ptr = text + 4;
      start_ptr = text;
      end_ptr = text + 4;
      memory = true;
    };
  }

  message-four_characters :
      (literal : Ptr) (args : NgxStr)
      → message_cell (message literal args)
        ≡ four_characters (if ltb args.len 4 then literal else args.data_ptr)
  unfolding message range_str set_range set_boundary
  message-four_characters literal args = ground arith

  -- The allocator's addresses are not null, and the chain does not use them.
  pub record IsFresh (cs : List Cell) : Type 0 where
    pub buf_ne_null : g.buf ≢ null
    pub link_ne_null : g.link ≢ null
    pub buf_free : has_buf g.buf cs ≡ false
    pub link_free : has_node g.link cs ≡ false

  abbrev built : NgxStr → Memory → Memory
  built msg m = record {
    links =
        update (update m.links g.link (record { buf = g.uninitialised; next = null })) g.link
          (record { buf = g.buf; next = null });
    bufs = update (update m.bufs g.buf zero_buf) g.buf (range_str msg zero_buf);
  }

  message_node-built :
      (msg : NgxStr) (m : Memory) {cs : List Cell}
      → IsFresh cs
      → message_node g msg m ≡ ok g.link (built msg m)
  unfolding message_node buffer chain require_ptr load_buf load_link set_buf modify_buf
  message_node-built msg m f = ground arith

  built-Holds :
      (msg : NgxStr) (m : Memory) {cs : List Cell}
      → IsFresh cs
      → Holds (built msg m) g.link (message_cell msg ∷ [])
  built-Holds msg m f = node (ground arith) end

  built-kept :
      (msg : NgxStr) {m : Memory} {p : Ptr} {cs : List Cell}
      → IsFresh cs
      → Holds m p cs
      → Holds (built msg m) p cs
  built-kept msg f h = Holds-frame h (λ a i. ground arith) (λ a i. ground arith)

  last_node-apart :
      (a : Ptr) (c : Cell) (cs : List Cell)
      → has_node a (c ∷ cs) ≡ false
      → (a == last_node c cs) ≡ false
  last_node-apart a c [] h = ground arith
  last_node-apart a c (d ∷ ds) h = last_node-apart a d ds (ground arith)

  -- `create_request` adds one node behind the request's chain, or starts it: its buffer holds four
  -- characters of the arguments or, if those are shorter than four, of the literal. The addresses that the
  -- allocator gives are new to the chain, and the fuel is more than the chain's length.
  pub create_request-Holds :
      (k : ℕ) (literal : Ptr) (args : NgxStr) (u : Upstream) {p : Ptr} {cs : List Cell}
      → u.request_bufs ≡ p
      → Holds u.memory p cs
      → IsFresh cs
      → length cs < k
      → (v : Upstream) × (create_request k g literal args u ≡ ok ngx_ok v)
        × Holds v.memory v.request_bufs
            (cs ++ four_characters (if ltb args.len 4 then literal else args.data_ptr) ∷ [])
  unfolding create_request request
  create_request-Holds k literal args u e end f fuel =
      let msg = message literal args in
      (
        record u { memory = built msg u.memory; request_bufs = g.link },
        ground (arith, message_node-built msg u.memory f),
        subst (λ c. Holds (built msg u.memory) g.link (c ∷ []))
            (message-four_characters literal args) (built-Holds msg u.memory f),
      )
  create_request-Holds k literal args u {p} {cs = c ∷ cs} e (node n rest) f fuel =
      let msg = message literal args in
      let there = not_null n in
      let made = message_node-built msg u.memory f in
      let old = built-kept msg f (node n rest) in
      let (m, run, h, _) =
        append-Holds k old (built-Holds msg u.memory f)
          (ground (arith, last_node-apart g.link c cs f.link_free)) (omega arith) in
      (
        record u { memory = m },
        ground arith,
        subst
            (λ r.
              Holds m r (
                c ∷ cs ++ four_characters (if ltb args.len 4 then literal else args.data_ptr) ∷ []))
            (sym e)
            (subst (λ d. Holds m p (c ∷ cs ++ d ∷ [])) (message-four_characters literal args) h),
      )
