-- ===== src/Filter/Footer.antt =====
-- Where the body filter of http/filter/NdgFilterHandler.hpp puts the footer.
use ngx_cpp_dev.Chain.Free.{has_node-tail}
use ngx_cpp_dev.Exception.{require_ptr}
use mathlib.Core.Path.{subst}
use ngx_cpp_dev.Base.{
  sym, Bool-cases, ℕ, zero, suc, ◌+◌, ◌<◌, ◌==◌, ◌≡◌, ◌≢◌, refl, true, false, inl, inr, none, List,
  [], ◌∷◌, arith, if◌then◌else◌, length, All,
}
use ngx_cpp_dev.Base.Run.{ok}
use ngx_cpp_dev.Nginx.{Ptr, null, NgxStr, Buf, BufSize, zero_buf}
use ngx_cpp_dev.Pool.{chain, buffer}
use ngx_cpp_dev.Memory.{set_next, set_buf, modify_buf, load_link, load_buf, Memory, update}
use ngx_cpp_dev.Memory.Chains.{
  Holds-frame, has_buf, Cell, IsNode, Holds, end, node, not_null, load_link-ok, load_buf-ok,
}
use ngx_cpp_dev.Filter.{set_buf, load_buf, load_link, Given, find_last_buf, put_footer}

-- From `p` the first node whose buffer ends the response is `r`, which holds `v` in the buffer `b`.
pub data FoundLast (m : Memory) (r b q : Ptr) (v : Buf) : Ptr → List Cell → List Cell → Type 0 where
  here :
      {after : List Cell}
      → IsNode m r b q v
      → v.last_buf ≡ true
      → Holds m q after
      → FoundLast m r b q v r (record { node_at = r; buf_at = b; buf = v } ∷ after) after
  later :
      {p b' q' : Ptr} {v' : Buf} {cs after : List Cell}
      → IsNode m p b' q' v'
      → v'.last_buf ≡ false
      → FoundLast m r b q v q' cs after
      → FoundLast m r b q v p (record { node_at = p; buf_at = b'; buf = v' } ∷ cs) after

pub data Search (m : Memory) (p : Ptr) (cs : List Cell) : Ptr → Type 0 where
  missing : All (λ c. c.buf.last_buf ≡ false) cs → Search m p cs null
  found :
      {r b q : Ptr} {v : Buf} {after : List Cell} → FoundLast m r b q v p cs after → Search m p cs r

Search-later :
    {m : Memory} {p b q r : Ptr} {v : Buf} {cs : List Cell}
    → IsNode m p b q v
    → v.last_buf ≡ false
    → Search m q cs r
    → Search m p (record { node_at = p; buf_at = b; buf = v } ∷ cs) r
Search-later n more (missing rest) = missing (more, rest)
Search-later n more (found f) = found (later n more f)

-- On a chain the loop of the body filter returns the first node whose buffer ends the response, or
-- null if there is none, and writes nothing. The fuel is more than the chain's length.
pub find_last_buf-Search :
    (k : ℕ) {m : Memory} {p : Ptr} {cs : List Cell}
    → Holds m p cs
    → length cs < k
    → (r : Ptr) × (find_last_buf k p m ≡ ok r m) × Search m p cs r
unfolding find_last_buf
find_last_buf-Search zero h fuel = absurd (omega arith)
find_last_buf-Search (suc k) end fuel = (null, refl, missing tt)
find_last_buf-Search (suc k) (node {p} {v} n rest) fuel = elim (Bool-cases v.last_buf) [
  | inl last ↦ (p, rw (not_null n, load_link-ok n, load_buf-ok n, last), found (here n last rest))
  | inr more ↦
      let (r, e, s) = find_last_buf-Search k rest (omega arith) in
      (r, rw (not_null n, load_link-ok n, load_buf-ok n, more) e, Search-later n more s)
]

-- What the footer's buffer is to hold: the bytes of the footer, in memory that is not written, as the
-- end of its chain and of the response.
abbrev pub ftr_of : NgxStr → Buf
ftr_of footer = record {
  pos_ptr = footer.data_ptr;
  last_ptr = footer.data_ptr + footer.len;
  start_ptr = null;
  end_ptr = null;
  memory = true;
  temporary = false;
  last_buf = true;
  last_in_chain = true;
  file_pos = 0;
  file_last = 0;
}

-- A buffer that ends nothing any more.
abbrev pub unended : Buf → Buf
unended b = record b { last_buf = false; last_in_chain = false }

-- The chain with a footer whose buffer holds `ftr` in the end.
module _ (api : BufSize) (g : Given) (ftr : Buf) where
  abbrev pub footer_cell : Ptr → Cell
  footer_cell p = record { node_at = p; buf_at = g.buf; buf = ftr }

  -- The chain with the footer: the first buffer that ends the response gives way to the footer if
  -- it is empty, and else the footer's node is the new end.
  abbrev pub with_footer : List Cell → List Cell
  with_footer [] = []
  with_footer (c ∷ cs) =
      if c.buf.last_buf
      then (if api.size c.buf == 0
          then footer_cell c.node_at ∷ cs
          else record c { buf = unended c.buf } ∷ footer_cell g.link ∷ [])
      else c ∷ with_footer cs

  -- The allocator's addresses are not null and not in use.
  pub record IsFresh (m : Memory) : Type 0 where
    pub buf_ne_null : g.buf ≢ null
    pub link_ne_null : g.link ≢ null
    pub buf_free : m.bufs g.buf ≡ none
    pub link_free : m.links g.link ≡ none

  abbrev pub replaced : Memory → Ptr → Ptr → Memory
  replaced m r q = record {
    links = update m.links r (record { buf = g.buf; next = q });
    bufs = update (update m.bufs g.buf zero_buf) g.buf ftr;
  }

  abbrev pub appended : Memory → Ptr → Ptr → Buf → Memory
  appended m r b v = record {
    links =
        update
          (update
            (update (update m.links g.link (record { buf = g.uninitialised; next = null })) g.link
              (record { buf = g.buf; next = null }))
            g.link (record { buf = g.buf; next = null }))
          r (record { buf = b; next = g.link });
    bufs = update (update (update m.bufs g.buf zero_buf) g.buf ftr) b (unended v);
  }

  pub found-IsNode :
      {m : Memory} {r b q : Ptr} {v : Buf} {p : Ptr} {cs after : List Cell}
      → FoundLast m r b q v p cs after
      → IsNode m r b q v × (v.last_buf ≡ true) × Holds m q after
  found-IsNode (here n last rest) = (n, last, rest)
  found-IsNode (later n more f) = found-IsNode f

  -- The nodes whose buffers do not end the response are as they were, but for the node `r`.
  abbrev pub KeepsFront : Memory → Memory → Ptr → Type 0
  KeepsFront m m' r =
      (a b q : Ptr) (v : Buf) → IsNode m a b q v → v.last_buf ≡ false → a ≢ r → IsNode m' a b q v

  pub with_footer-later :
      (c : Cell) (cs : List Cell)
      → c.buf.last_buf ≡ false
      → with_footer (c ∷ cs) ≡ c ∷ with_footer cs
  with_footer-later c cs more = ground arith

  front-Holds :
      {m m' : Memory} {r b q : Ptr} {v : Buf} {p : Ptr} {cs after : List Cell}
      → FoundLast m r b q v p cs after
      → KeepsFront m m' r
      → Holds m' r (with_footer (record { node_at = r; buf_at = b; buf = v } ∷ after))
      → Holds m' p (with_footer cs)
  front-Holds (here n last rest) keep h = h
  front-Holds {m'} (later {p} {b'} {q'} {v'} {cs} n more f) keep h =
      let (n_r, last, _) = found-IsNode f in
      subst (Holds m' p) (sym (with_footer-later _ cs more))
        (node (keep p b' q' v' n more (ground arith)) (front-Holds f keep h))

  has_buf-allocated :
      {m : Memory} {p : Ptr} {cs : List Cell} (a : Ptr)
      → Holds m p cs
      → has_buf a cs ≡ true
      → m.bufs a ≢ none
  has_buf-allocated a end i = cc
  has_buf-allocated a (node {b} n rest) i = elim (Bool-cases (b == a)) [
    | inl hit ↦ ground arith
    | inr miss ↦ has_buf-allocated a rest (ground arith)
  ]

  pub replaced-Holds :
      {m : Memory} {r b q : Ptr} {v : Buf} {p : Ptr} {cs after : List Cell}
      → FoundLast m r b q v p cs after
      → IsFresh m
      → (api.size v == 0) ≡ true
      → Holds (replaced m r q) p (with_footer cs)
  replaced-Holds {m} {r} {q} f fresh e =
      let (n, last, rest) = found-IsNode f in
      let once = has_node-tail n rest in
      front-Holds f (λ a b' q' v' n' more ne. ground arith)
        (rw (e, last)
          (node (ground arith) (
            Holds-frame rest (λ a i. ground arith)
              (λ a i. ground (arith, has_buf-allocated a rest i)))))

  pub appended-Holds :
      {m : Memory} {r b q : Ptr} {v : Buf} {p : Ptr} {cs after : List Cell}
      → FoundLast m r b q v p cs after
      → IsFresh m
      → (api.size v == 0) ≡ false
      → Holds (appended m r b v) p (with_footer cs)
  appended-Holds f fresh e =
      let (n, last, _) = found-IsNode f in
      front-Holds f (λ a b' q' v' n' more ne. ground arith)
        (rw (e, last) (node (ground arith) (node (ground arith) end)))

module _ (api : BufSize) (g : Given) (footer : NgxStr) where
  put_footer-replaced :
      {m : Memory} {r b q : Ptr} {v : Buf}
      → IsNode m r b q v
      → IsFresh api g (ftr_of footer) m
      → (api.size v == 0) ≡ true
      → put_footer api g footer r m ≡ ok tt (replaced api g (ftr_of footer) m r q)
  unfolding put_footer buffer require_ptr load_link load_buf set_buf modify_buf
  put_footer-replaced n f e = ground arith

  put_footer-appended :
      {m : Memory} {r b q : Ptr} {v : Buf}
      → IsNode m r b q v
      → IsFresh api g (ftr_of footer) m
      → (api.size v == 0) ≡ false
      → put_footer api g footer r m ≡ ok tt (appended api g (ftr_of footer) m r b v)
  unfolding put_footer buffer chain require_ptr load_link load_buf set_buf set_next modify_buf
  put_footer-appended n f e = ground arith

  -- With the found node as its argument `put_footer` puts the footer where `with_footer` says.
  pub put_footer-Holds :
      {m : Memory} {r b q : Ptr} {v : Buf} {p : Ptr} {cs after : List Cell}
      → FoundLast m r b q v p cs after
      → IsFresh api g (ftr_of footer) m
      → (m' : Memory) × (put_footer api g footer r m ≡ ok tt m')
        × Holds m' p (with_footer api g (ftr_of footer) cs)
  put_footer-Holds {m} {r} {b} {q} {v} f fresh =
      let (n, _, _) = found-IsNode api g (ftr_of footer) f in
      elim (Bool-cases (api.size v == 0)) [
        | inl bare ↦ (
          replaced api g (ftr_of footer) m r q,
          put_footer-replaced n fresh bare,
          replaced-Holds api g (ftr_of footer) f fresh bare,
        )
        | inr full ↦ (
          appended api g (ftr_of footer) m r b v,
          put_footer-appended n fresh full,
          appended-Holds api g (ftr_of footer) f fresh full,
        )
      ]
