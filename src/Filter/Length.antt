-- ===== src/Filter/Length.antt =====
-- Whether the length that http/filter/NdgFilterHandler.hpp announces is the length of the body.
use ngx_cpp_dev.NgxString.{off_t_of, str_empty}
use ngx_cpp_dev.Filter.Body.{do_body_filter-BodyFiltered, FooterPass}
use ngx_cpp_dev.Exception.{exception_of}
use ngx_cpp_dev.Base.Run.{raised, ok}
use ngx_cpp_dev.NgxArray.{elements}
use ngx_cpp_dev.NgxList.{IsValid, PushesBack, NgxList}
use mathlib.Core.Path.{subst}
use ngx_cpp_dev.Filter.{do_body_filter, do_header_filter, Request, NdgFilterConf, Given}
use ngx_cpp_dev.Base.{
  some, none, length, ap, Option, ◌∙◌, All, ℕ, ◌+◌, ◌<◌, ◌^◌, ◌==◌, ◌≡◌, refl, true, false, ◌⊎◌,
  inl, inr, List, [], ◌∷◌, arith, if◌then◌else◌, Bool-cases,
}
use ngx_cpp_dev.Base.Int.{pos}
use ngx_cpp_dev.Nginx.{ngx_error, TableElt, Ptr, NgxStr, BufSize}
use ngx_cpp_dev.Memory.Chains.{Holds, Cell}
use ngx_cpp_dev.Chain.Walk.{total}
use ngx_cpp_dev.Filter.Footer.{ftr_of, IsFresh, with_footer-later, footer_cell, with_footer}
use ngx_cpp_dev.Filter.Header.{
  do_header_filter-HeaderFiltered, HeaderFiltered, FirstPass, OutAt, grown_length,
}

-- The chain's last buffer, and no other, ends the response.
abbrev pub Ended : List Cell → Type 0
Ended [] = ⊥
Ended (c ∷ []) = c.buf.last_buf ≡ true
Ended (c ∷ d ∷ ds) = (c.buf.last_buf ≡ false) × Ended (d ∷ ds)

off_t_of-small : (n : ℕ) → n < 2 ^ 63 → off_t_of n ≡ pos n
unfolding off_t_of
off_t_of-small n small = ground arith

grown_length-pos :
    (footer : NgxStr) (n : ℕ)
    → str_empty footer ≡ false
    → 0 < n
    → n + footer.len < 2 ^ 63
    → grown_length footer (pos n) ≡ pos (n + footer.len)
grown_length-pos footer n given some_body small =
    let exact = off_t_of-small (n + footer.len) small in ground arith

module _ (api : BufSize) (g : Given) (footer : NgxStr) where
  footer-size : (p : Ptr) → api.size (footer_cell api g (ftr_of footer) p).buf ≡ footer.len
  footer-size p = api.size_in_memory (ftr_of footer) refl ∙ omega arith

  total-with_footer :
      (cs : List Cell)
      → Ended cs
      → total api (with_footer api g (ftr_of footer) cs) ≡ total api cs + footer.len
  total-with_footer [] e = absurd e
  total-with_footer (c ∷ []) e =
      let same = api.size_of_flags c.buf false false in
      elim (Bool-cases (api.size c.buf == 0)) [
        | inl bare ↦ ground (arith, footer-size c.node_at)
        | inr full ↦ ground (arith, footer-size g.link, same)
      ]
  total-with_footer (c ∷ d ∷ ds) (more, e) =
      let rest = total-with_footer (d ∷ ds) e in
      ap (total api) (with_footer-later api g (ftr_of footer) c (d ∷ ds) more) ∙ omega arith

  Ended-not-missing : (cs : List Cell) → Ended cs → All (λ c. c.buf.last_buf ≡ false) cs → ⊥
  Ended-not-missing [] e none_last = e
  Ended-not-missing (c ∷ []) e (no_last, _) = cc
  Ended-not-missing (c ∷ d ∷ ds) (_, e) (_, none_last) = Ended-not-missing (d ∷ ds) e none_last

module _ (api : BufSize) (ngx_list_push : TableElt → NgxList TableElt → Option (NgxList TableElt))
    (g : Given) (cf : NdgFilterConf) where
  -- Both filters ran on the request `s` and the body from `p`: the state after, and the body then.
  abbrev pub Filtered : ℕ → Ptr → List Cell → Request → Type 0
  Filtered k p cs s =
      (t : Request) × (u : Request) × (do_header_filter ngx_list_push g cf s ≡ ok tt t)
      × (do_body_filter api k g cf p t ≡ ok tt u)
      × Holds u.memory p (with_footer api g (ftr_of cf.footer) cs)
      × (u.content_length_n ≡ grown_length cf.footer s.content_length_n)

  -- The body that the filters pass on is as long as the response announces.
  abbrev pub Announced : ℕ → Ptr → Request → Type 0
  Announced k p s =
      (t : Request) × (u : Request) × (ds : List Cell) × (do_header_filter ngx_list_push g cf s
        ≡ ok tt t)
      × (do_body_filter api k g cf p t ≡ ok tt u)
      × Holds u.memory p ds
      × (u.content_length_n ≡ pos (total api ds))

  -- The filters pass on the footer as the body, and the response announces the length 0.
  abbrev pub Unannounced : ℕ → Ptr → Request → Type 0
  Unannounced k p s =
      (t : Request) × (u : Request) × (ds : List Cell) × (do_header_filter ngx_list_push g cf s
        ≡ ok tt t)
      × (do_body_filter api k g cf p t ≡ ok tt u)
      × Holds u.memory p ds
      × (total api ds ≡ cf.footer.len)
      × (u.content_length_n ≡ pos 0)

  -- The header filter throws because `ngx_list_push` has no memory for a configured header.
  abbrev pub NoMemory : Request → Type 0
  NoMemory s =
      (l : NgxList TableElt) × (do_header_filter ngx_list_push g cf s
        ≡ raised (exception_of ngx_error) (record s { ctx = some 1; headers_out = l }))
      × OutAt ngx_list_push s (elements cf.headers) l

  module _ (s : Request) (cs : List Cell) (k : ℕ) (p : Ptr) (law : PushesBack ngx_list_push)
      (valid : IsValid s.headers_out) (h : Holds s.memory p cs)
      (fresh : IsFresh api g (ftr_of cf.footer) s.memory) (fuel : length cs < k) (ended : Ended cs)
      (footer : str_empty cf.footer ≡ false) (first : s.ctx ≡ none) (given : g.ctx ≡ true) where
    filters-Filtered : Filtered k p cs s ⊎ NoMemory s
    filters-Filtered =
        let r = do_header_filter ngx_list_push g cf s in
        let outcome : FirstPass ngx_list_push cf s r =
          subst
            (λ b.
              if b then FirstPass ngx_list_push cf s r else (r ≡ raised (exception_of ngx_error) s))
            given
            (subst (λ c. HeaderFiltered ngx_list_push g cf s c r) first
              (do_header_filter-HeaderFiltered ngx_list_push g cf s law valid)) in
        elim outcome [
          | inl (l, e, _, _) ↦
              let t : Request = record s {
                ctx = some 1;
                content_length_n = grown_length cf.footer s.content_length_n;
                headers_out = l;
              } in
              let pass : FooterPass api g cf.footer (ftr_of cf.footer) p cs t
                  (do_body_filter api k g cf p t) =
                subst
                  (λ b.
                    if b
                    then (do_body_filter api k g cf p t ≡ ok tt t)
                    else FooterPass api g cf.footer (ftr_of cf.footer) p cs t
                        (do_body_filter api k g cf p t))
                  footer (do_body_filter-BodyFiltered api g cf k p cs t h fresh fuel) in
              elim pass [
                | inl (none_last, _) ↦ absurd (Ended-not-missing api g cf.footer cs ended none_last)
                | inr (m, e', h') ↦ inl (t, record t { memory = m; ctx = some 2 }, e, e', h', refl)
              ]
          | inr out ↦ inr out
        ]

    -- A response that announces the exact length of a body that is not empty announces, after both
    -- filters, the exact length of the body with the footer, unless `ngx_list_push` has no memory for a
    -- configured header, where the header filter throws.
    -- The request is new, there is a footer, the body's last buffer and no other ends the response,
    -- the header list and the chain are valid, allocation is fresh, `ngx_list_push` adds one element,
    -- the fuel is more than the chain's length, and the new length is less than `2 ^ 63`.
    pub filters-Announced :
        s.content_length_n ≡ pos (total api cs)
        → 0 < total api cs
        → total api cs + cf.footer.len < 2 ^ 63
        → Announced k p s ⊎ NoMemory s
    filters-Announced len some_body small = elim filters-Filtered [
      | inl (t, u, e, e', h', grown) ↦ inl (
        t,
        u,
        with_footer api g (ftr_of cf.footer) cs,
        e,
        e',
        h',
        rw (grown, len, total-with_footer api g cf.footer cs ended)
            (grown_length-pos cf.footer (total api cs) footer some_body small),
      )
      | inr out ↦ inr out
    ]

    -- A response that announces the length 0 of an empty body announces 0 after both filters though
    -- the body is then the footer, unless `ngx_list_push` has no memory for a
    -- configured header, where the header filter throws. The request is new, there
    -- is a footer, the body's last buffer and no other ends the response, the header list and the chain
    -- are valid, allocation is fresh, `ngx_list_push` adds one element, and the fuel is more than the
    -- chain's length.
    pub filters-Unannounced :
        s.content_length_n ≡ pos 0 → total api cs ≡ 0 → Unannounced k p s ⊎ NoMemory s
    filters-Unannounced len no_body = elim filters-Filtered [
      | inl (t, u, e, e', h', grown) ↦ inl (
        t,
        u,
        with_footer api g (ftr_of cf.footer) cs,
        e,
        e',
        h',
        rw (total-with_footer api g cf.footer cs ended, no_body) (omega arith),
        rw (grown, len, footer) refl,
      )
      | inr out ↦ inr out
    ]
