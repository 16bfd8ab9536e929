-- ===== src/Filter/Body.antt =====
-- The body filter of http/filter/NdgFilterHandler.hpp, on every branch.
use ngx_cpp_dev.NgxString.{str_empty}
use ngx_cpp_dev.Base.{
  ℕ, ◌<◌, ◌==◌, ◌≡◌, refl, true, false, ◌⊎◌, inl, inr, Option, none, some, List, arith,
  if◌then◌else◌, length, All, Bool-cases,
}
use ngx_cpp_dev.Base.Run.{◌>>=◌, ◌>>◌, Run, Cmd, ok, raised, pure}
use ngx_cpp_dev.Nginx.{NgxStr, Buf, is_null, Ptr, BufSize, ngx_error}
use ngx_cpp_dev.Exception.{exception_of, require, raise}
use ngx_cpp_dev.Memory.{Memory}
use ngx_cpp_dev.Memory.Chains.{not_null, Cell, Holds}
use ngx_cpp_dev.Filter.{
  set_flag, on_memory, NdgFilterConf, Request, Given, data_of, put_footer, find_last_buf,
  do_body_filter,
}
use ngx_cpp_dev.Filter.Footer.{
  ftr_of, found-IsNode, IsFresh, Search, missing, found, with_footer, find_last_buf-Search,
  put_footer-Holds,
}

-- The outcome of a body filter, whose footer is `footer`, in a buffer that holds `ftr`.
module _ (api : BufSize) (g : Given) (footer : NgxStr) (ftr : Buf) where
  -- The pass that can send the footer: no buffer ends the response yet and nothing changes, or the
  -- footer is put into the chain from `p` and the flag becomes 2.
  abbrev pub FooterPass : Ptr → List Cell → Request → Run Request (Unit {0}) → Type 0
  FooterPass p cs s r =
      (All (λ c. c.buf.last_buf ≡ false) cs × (r ≡ ok tt s))
      ⊎ ((m : Memory) × (r ≡ ok tt (record s { memory = m; ctx = some 2 }))
          × Holds m p (with_footer api g ftr cs))

  -- What is to happen, by the context before.
  abbrev pub BodyFiltered : Ptr → List Cell → Request → Option ℕ → Run Request (Unit {0}) → Type 0
  BodyFiltered p cs s none r =
      if str_empty footer
      then (r ≡ ok tt s)
      else if g.ctx
      then (r ≡ ok tt (record s { ctx = some 0 }))
      else (r ≡ raised (exception_of ngx_error) s)
  BodyFiltered p cs s (some flag) r =
      if str_empty footer
      then (r ≡ ok tt s)
      else if flag == 1
      then FooterPass p cs s r
      else (r ≡ ok tt s)

module _ (api : BufSize) (g : Given) (cf : NdgFilterConf) where
  sends : ℕ → Ptr → Cmd Request (Unit {0})
  sends k p = do
    q ← on_memory (find_last_buf k p)
    if is_null q then pure tt else do set_flag 2; on_memory (put_footer api g cf.footer q)

  sends-FooterPass :
      (k : ℕ) (p : Ptr) (cs : List Cell) (s : Request) (r : Ptr)
      → find_last_buf k p s.memory ≡ ok r s.memory
      → Search s.memory p cs r
      → IsFresh api g (ftr_of cf.footer) s.memory
      → FooterPass api g cf.footer (ftr_of cf.footer) p cs s (sends k p s)
  unfolding sends
  sends-FooterPass k p cs s r e (missing none_last) fresh = inl (none_last, ground arith)
  sends-FooterPass k p cs s r e (found f) fresh =
      let (n, _, _) = found-IsNode api g (ftr_of cf.footer) f in
      let (m, e', h') = put_footer-Holds api g cf.footer f fresh in
      inr (m, ground (arith, not_null n), h')

  do_body_filter-sends :
      (k : ℕ) (p : Ptr) (s : Request) {flag : ℕ}
      → s.ctx ≡ some flag
      → (flag == 1) ≡ true
      → str_empty cf.footer ≡ false
      → do_body_filter api k g cf p s ≡ sends k p s
  unfolding do_body_filter data_of sends
  do_body_filter-sends k p s e first footer = ground arith

  BodyFiltered-ctx :
      (k : ℕ) (p : Ptr) (cs : List Cell) (s : Request) (ctx : Option ℕ)
      → s.ctx ≡ ctx
      → Holds s.memory p cs
      → IsFresh api g (ftr_of cf.footer) s.memory
      → length cs < k
      → BodyFiltered api g cf.footer (ftr_of cf.footer) p cs s ctx (do_body_filter api k g cf p s)
  unfolding do_body_filter data_of require raise
  BodyFiltered-ctx k p cs s none e h fresh fuel = elim (Bool-cases (str_empty cf.footer)) [
    | inl no_footer ↦ rw no_footer refl
    | inr footer ↦ elim (Bool-cases g.ctx) [
      | inl given ↦ rw (footer, given, e) refl
      | inr out ↦ rw (footer, out, e) refl
    ]
  ]
  BodyFiltered-ctx k p cs s (some flag) e h fresh fuel = elim (Bool-cases (str_empty cf.footer)) [
    | inl no_footer ↦ rw no_footer refl
    | inr footer ↦ elim (Bool-cases (flag == 1)) [
      | inl first ↦
          let (r, search, where_found) = find_last_buf-Search k h fuel in
          rw (do_body_filter-sends k p s e first footer, footer, first)
            (sends-FooterPass k p cs s r search where_found fresh)
      | inr not_first ↦ ground arith
    ]
  ]

  -- Where there is a footer, the header filter has seen the response and the footer was not sent,
  -- the body filter puts the footer into the chain at the first buffer that ends the response, and
  -- sets the flag to 2; without such a buffer nothing changes. In every other state of the flag,
  -- and without a footer, nothing changes but that a missing context is made, with the flag 0,
  -- where there is a footer; without memory for it the filter throws. The chain is a list of nodes,
  -- the allocator's addresses are fresh, and the fuel of the loop is more than the chain's length.
  pub do_body_filter-BodyFiltered :
      (k : ℕ) (p : Ptr) (cs : List Cell) (s : Request)
      → Holds s.memory p cs
      → IsFresh api g (ftr_of cf.footer) s.memory
      → length cs < k
      → BodyFiltered api g cf.footer (ftr_of cf.footer) p cs s s.ctx (do_body_filter api k g cf p s)
  do_body_filter-BodyFiltered k p cs s h fresh fuel =
      BodyFiltered-ctx k p cs s s.ctx refl h fresh fuel
