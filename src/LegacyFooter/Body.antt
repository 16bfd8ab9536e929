-- ===== src/LegacyFooter/Body.antt =====
-- The body filter of legacy/footer/NdgFooterHandler.hpp, on every branch.
use ngx_cpp_dev.NgxString.{str_empty}
use ngx_cpp_dev.Exception.{require, raise, require_ptr}
use ngx_cpp_dev.Base.{
  ◌∙◌, Bool-cases, ℕ, ◌<◌, ◌==◌, ◌≡◌, refl, true, false, inl, inr, none, some, Option, List, arith,
  if◌then◌else◌, length,
}
use ngx_cpp_dev.Base.Run.{◌>>=◌, ◌>>◌, Cmd, ok, pure}
use ngx_cpp_dev.Nginx.{Ptr, is_null, NgxStr, Buf, BufSize, zero_buf}
use ngx_cpp_dev.Pool.{chain, buffer}
use ngx_cpp_dev.Buf.{range_str, finish}
use ngx_cpp_dev.Chain.{link, node_finish, set}
use ngx_cpp_dev.Memory.{set_next, set_buf, modify_buf, load_link, load_buf, Memory, update}
use ngx_cpp_dev.Memory.Chains.{Holds-frame, Cell, IsNode, Holds, not_null}
use ngx_cpp_dev.Filter.{Request, Given, on_memory, data_of, set_flag}
use ngx_cpp_dev.Filter.Footer.{
  found-IsNode, IsFresh, FoundLast, Search, missing, found, with_footer, appended, replaced-Holds,
  appended-Holds, find_last_buf-Search,
}
use ngx_cpp_dev.Filter.Body.{FooterPass, BodyFiltered}
use ngx_cpp_dev.LegacyFooter.{NdgFooterConf, find_last, put_footer, do_body_filter}
use ngx_cpp_dev.LegacyFooter.Same.{EndsTogether, find_last-same}

-- What the footer's buffer holds.
abbrev pub ftr_of : NgxStr → Buf
ftr_of footer = finish true (range_str footer zero_buf)

-- Memory that reads the same keeps every chain.
same-Holds :
    {m : Memory} {p : Ptr} {cs : List Cell} (m' : Memory)
    → Holds m p cs
    → ((a : Ptr) → m'.links a ≡ m.links a)
    → ((a : Ptr) → m'.bufs a ≡ m.bufs a)
    → Holds m' p cs
same-Holds m' h hl hb = Holds-frame h (λ a i. hl a) (λ a i. hb a)

module _ (api : BufSize) (g : Given) (footer : NgxStr) where
  put_footer-replaced :
      {m : Memory} {r b q : Ptr} {v : Buf}
      → IsNode m r b q v
      → IsFresh api g (ftr_of footer) m
      → (api.size v == 0) ≡ true
      → put_footer api g footer r m
        ≡ ok tt (record m {
          links = update m.links r (record { buf = g.buf; next = q });
          bufs =
              update
                (update (update m.bufs g.buf zero_buf) g.buf (range_str footer zero_buf))
                g.buf
                (ftr_of footer);
        })
  unfolding put_footer buffer set require_ptr load_link load_buf set_buf modify_buf
  put_footer-replaced n f e = ground arith

  put_footer-appended :
      {m : Memory} {r b q : Ptr} {v : Buf}
      → IsNode m r b q v
      → IsFresh api g (ftr_of footer) m
      → (api.size v == 0) ≡ false
      → put_footer api g footer r m
        ≡ ok tt (record {
          links = (appended api g (ftr_of footer) m r b v).links;
          bufs =
              update
                (update
                  (update (update m.bufs g.buf zero_buf) g.buf (range_str footer zero_buf))
                  g.buf
                  (ftr_of footer))
                b
                (finish false v);
        })
  unfolding put_footer buffer chain set link node_finish require_ptr load_link load_buf set_buf
      set_next modify_buf finish
  put_footer-appended n f e = ground arith

  -- With the found node as its argument `put_footer` puts the footer where `with_footer` says.
  put_footer-Holds :
      {m : Memory} {r b q : Ptr} {v : Buf} {p : Ptr} {cs after : List Cell}
      → FoundLast m r b q v p cs after
      → IsFresh api g (ftr_of footer) m
      → (m' : Memory) × (put_footer api g footer r m ≡ ok tt m')
        × Holds m' p (with_footer api g (ftr_of footer) cs)
  unfolding finish
  put_footer-Holds {m} {r} {b} {q} {v} f fresh =
      let (n, _, _) = found-IsNode api g (ftr_of footer) f in
      elim (Bool-cases (api.size v == 0)) [
        | inl bare ↦ (
          _,
          put_footer-replaced n fresh bare,
          same-Holds _ (replaced-Holds api g (ftr_of footer) f fresh bare) (λ a. refl)
              (λ a. ground arith),
        )
        | inr full ↦ (
          _,
          put_footer-appended n fresh full,
          same-Holds _ (appended-Holds api g (ftr_of footer) f fresh full) (λ a. refl)
              (λ a. ground arith),
        )
      ]

module _ (api : BufSize) (g : Given) (cf : NdgFooterConf) where
  sends : ℕ → Ptr → Cmd Request (Unit {0})
  sends k p = do
    q ← on_memory (find_last k p)
    if is_null q then pure tt else do set_flag 2; on_memory (put_footer api g cf.footer q)

  sends-FooterPass :
      (k : ℕ) (p : Ptr) (cs : List Cell) (s : Request) (r : Ptr)
      → find_last k p s.memory ≡ ok r s.memory
      → Search s.memory p cs r
      → IsFresh api g (ftr_of cf.footer) s.memory
      → FooterPass api g cf.footer (ftr_of cf.footer) p cs s (sends k p s)
  unfolding sends
  sends-FooterPass k p cs s r e (missing none_last) fresh = inl (none_last, ground arith)
  sends-FooterPass k p cs s r e (found f) fresh =
      let (n, _, _) = found-IsNode api g (ftr_of cf.footer) f in
      let (m, e', h') = put_footer-Holds api g cf.footer f fresh in
      inr (m, ground (arith, not_null n), h')

  do_body_filter-sends :
      (k : ℕ) (p : Ptr) (s : Request) {flag : ℕ}
      → s.ctx ≡ some flag
      → (flag == 1) ≡ true
      → str_empty cf.footer ≡ false
      → do_body_filter api k g cf p s ≡ sends k p s
  unfolding do_body_filter data_of sends
  do_body_filter-sends k p s e first footer = ground arith

  BodyFiltered-ctx :
      (k : ℕ) (p : Ptr) (cs : List Cell) (s : Request) (ctx : Option ℕ)
      → s.ctx ≡ ctx
      → Holds s.memory p cs
      → EndsTogether cs
      → IsFresh api g (ftr_of cf.footer) s.memory
      → length cs < k
      → BodyFiltered api g cf.footer (ftr_of cf.footer) p cs s ctx (do_body_filter api k g cf p s)
  unfolding do_body_filter data_of require raise
  BodyFiltered-ctx k p cs s none e h ends fresh fuel = elim (Bool-cases (str_empty cf.footer)) [
    | inl no_footer ↦ rw no_footer refl
    | inr footer ↦ elim (Bool-cases g.ctx) [
      | inl given ↦ rw (footer, given, e) refl
      | inr out ↦ rw (footer, out, e) refl
    ]
  ]
  BodyFiltered-ctx k p cs s (some flag) e h ends fresh fuel =
      elim (Bool-cases (str_empty cf.footer)) [
        | inl no_footer ↦ rw no_footer refl
        | inr footer ↦ elim (Bool-cases (flag == 1)) [
          | inl first ↦
              let (r, search, where_found) = find_last_buf-Search k h fuel in
              rw (do_body_filter-sends k p s e first footer, footer, first)
                (sends-FooterPass k p cs s r (find_last-same k h ends fuel ∙ search) where_found
                  fresh)
          | inr not_first ↦ ground arith
        ]
      ]

  -- Where there is a footer, the header filter has seen the response and the footer was not sent, the
  -- older module's body filter puts the footer into the chain at the first buffer that ends the
  -- response, and sets the flag to 2; without such a buffer nothing changes. In every other state of
  -- the flag, and without a footer, nothing changes but that a missing context is made, with the
  -- flag 0, where there is a footer; without memory for it the filter throws. No buffer of the chain
  -- is the last of its chain without ending the response; the chain is a list of nodes, the
  -- allocator's addresses are fresh, and the fuel of the loop is more than the chain's length.
  pub legacy_body_filter-BodyFiltered :
      (k : ℕ) (p : Ptr) (cs : List Cell) (s : Request)
      → Holds s.memory p cs
      → EndsTogether cs
      → IsFresh api g (ftr_of cf.footer) s.memory
      → length cs < k
      → BodyFiltered api g cf.footer (ftr_of cf.footer) p cs s s.ctx (do_body_filter api k g cf p s)
  legacy_body_filter-BodyFiltered k p cs s h ends fresh fuel =
      BodyFiltered-ctx k p cs s s.ctx refl h ends fresh fuel
