-- ===== src/Filter/Header.antt =====
-- What the header filter of http/filter/NdgFilterHandler.hpp adds to a response.
use ngx_cpp_dev.NgxString.{off_t_of, str_empty}
use native.Mathlib.Numerals.{add-one}
use ngx_cpp_dev.Base.{
  Bool-cases, sym, ap, ℕ, zero, suc, ◌+◌, ◌<◌, ◌≡◌, refl, ◌⊎◌, inl, inr, Option, none, some, List,
  [], ◌∷◌, ◌++◌, map, arith, if◌then◌else◌, length, drop, append_assoc, append-nil, get_elem?-drop,
  drop-length, Option-cases,
}
use ngx_cpp_dev.Base.Int.{ℤ, pos, pos_part, ltb_ℤ}
use ngx_cpp_dev.Base.Run.{◌>>◌, Run, ok, raised}
use ngx_cpp_dev.Nginx.{NgxStr, KeyVal, TableElt, ngx_error}
use ngx_cpp_dev.Exception.{exception_of, require, raise}
use ngx_cpp_dev.NgxList.{NgxList, IsValid, PushesBack, items, push}
use ngx_cpp_dev.NgxArray.{Array, size, elements, at}
use ngx_cpp_dev.NgxArray.Access.{at-elt}
use ngx_cpp_dev.Headers.{add}
use ngx_cpp_dev.Filter.{
  set_flag, on_headers, NdgFilterConf, Request, Given, data_of, table_elt, add_headers, grow_length,
  do_header_filter,
}

-- A configured header as nginx is to send it: with a hash that is not 0.
abbrev pub configured : KeyVal → TableElt
configured kv = record { hash = 1; key = kv.key; value = kv.value }

-- The length that the response announces afterwards.
abbrev pub grown_length : NgxStr → ℤ → ℤ
grown_length footer len =
    if str_empty footer
    then len
    else if ltb_ℤ (pos 0) len
    then off_t_of (pos_part len + footer.len)
    else len

module _ (ngx_list_push : TableElt → NgxList TableElt → Option (NgxList TableElt)) where
  -- The headers before `kv` were added, and nginx has no memory for `kv`.
  abbrev pub OutAt : Request → List KeyVal → NgxList TableElt → Type 0
  OutAt s kvs l =
      (first : List KeyVal) × (kv : KeyVal) × (rest : List KeyVal) × (kvs ≡ first ++ kv ∷ rest)
      × IsValid l
      × (items l ≡ items s.headers_out ++ map configured first)
      × (ngx_list_push (configured kv) l ≡ none)

  -- All headers were added, or nginx had no memory for one of them; nothing else changed.
  abbrev pub Added : Request → List KeyVal → Run Request (Unit {0}) → Type 0
  Added s kvs r =
      ((l : NgxList TableElt) × (r ≡ ok tt (record s { headers_out = l }))
        × IsValid l
        × (items l ≡ items s.headers_out ++ map configured kvs))
      ⊎ ((l : NgxList TableElt) × (r
            ≡ raised (exception_of ngx_error) (record s { headers_out = l }))
          × OutAt s kvs l)

  at-inside :
      (xs : List KeyVal) (i : ℕ) {x : KeyVal} (s : Request)
      → i < length xs
      → drop i xs ≡ x ∷ drop (suc i) xs
      → at (some xs) i s ≡ ok x s
  unfolding size
  at-inside xs i s lt e = elim (at-elt (some xs) i s) [
    | inl (_, y, found, read) ↦ let (z, found', next) = get_elem?-drop xs i lt in cc
    | inr (past, _) ↦ absurd (omega arith)
  ]

  add-full :
      (kv : KeyVal) (s : Request)
      → ngx_list_push (configured kv) s.headers_out ≡ none
      → on_headers (add ngx_list_push (configured kv)) s ≡ raised (exception_of ngx_error) s
  unfolding add push raise
  add-full kv s e = ground arith

  add-ok :
      (kv : KeyVal) (s : Request) {l : NgxList TableElt}
      → ngx_list_push (configured kv) s.headers_out ≡ some l
      → on_headers (add ngx_list_push (configured kv)) s ≡ ok tt (record s { headers_out = l })
  unfolding add push
  add-ok kv s e = ground arith

  add_headers-Added :
      (n i : ℕ) (kvs : List KeyVal) (s : Request)
      → PushesBack ngx_list_push
      → IsValid s.headers_out
      → n + i ≡ length kvs
      → Added s (drop i kvs) (add_headers ngx_list_push n i (some kvs) s)
  unfolding add_headers
  add_headers-Added zero i kvs s law v e =
      inl (s.headers_out, refl, v, rw (drop-length kvs i (omega arith)) (sym (append-nil _)))
  add_headers-Added (suc n) i kvs s law v e =
      let lt : i < length kvs = omega arith in
      let (kv, found, next) = get_elem?-drop kvs i lt in
      let here = at-inside kvs i s lt next in
      elim (Option-cases (ngx_list_push (configured kv) s.headers_out)) [
        | inl full ↦
            rw (here, add-full kv s full)
              (inr (
                s.headers_out,
                refl,
                ([], kv, drop (suc i) kvs, next, v, sym (append-nil _), full),
              ))
        | inr (l, e') ↦
            let (w, grown) = law (table_elt kv) s.headers_out l v e' in
            let t : Request = record s { headers_out = l } in
            rw (here, add-ok kv s e', next, add-one i)
              (elim (add_headers-Added n (suc i) kvs t law w (omega arith)) [
                | inl (l', r, w', grown') ↦ inl (
                  l',
                  r,
                  w',
                  rw (grown', grown) (append_assoc (items s.headers_out) (table_elt kv ∷ []) _),
                )
                | inr (l', r, (first, kv', rest, split, w', grown', full)) ↦ inr (
                  l',
                  r,
                  (
                    kv ∷ first,
                    kv',
                    rest,
                    ap (λ xs. kv ∷ xs) split,
                    w',
                    rw (grown', grown) (append_assoc (items s.headers_out) (table_elt kv ∷ []) _),
                    full,
                  ),
                )
              ])
      ]

  add_headers-elements :
      (headers : Array KeyVal) (s : Request)
      → PushesBack ngx_list_push
      → IsValid s.headers_out
      → Added s (elements headers) (add_headers ngx_list_push (size headers) 0 headers s)
  unfolding size add_headers
  add_headers-elements none s law v = inl (s.headers_out, refl, v, sym (append-nil _))
  add_headers-elements (some kvs) s law v =
      add_headers-Added (length kvs) 0 kvs s law v (omega arith)

  -- The first pass added all headers and grew the length, or nginx had no memory for a header.
  abbrev pub FirstPass : NdgFilterConf → Request → Run Request (Unit {0}) → Type 0
  FirstPass cf s r =
      ((l : NgxList TableElt) × (r
          ≡ ok tt (record s {
            ctx = some 1;
            content_length_n = grown_length cf.footer s.content_length_n;
            headers_out = l;
          }))
        × IsValid l
        × (items l ≡ items s.headers_out ++ map configured (elements cf.headers)))
      ⊎ ((l : NgxList TableElt) × (r
            ≡ raised (exception_of ngx_error) (record s { ctx = some 1; headers_out = l }))
          × OutAt s (elements cf.headers) l)

  -- What is to happen, by the context before: only the first pass does anything.
  abbrev pub HeaderFiltered :
      Given → NdgFilterConf → Request → Option ℕ → Run Request (Unit {0}) → Type 0
  HeaderFiltered g cf s none r =
      if g.ctx then FirstPass cf s r else (r ≡ raised (exception_of ngx_error) s)
  HeaderFiltered g cf s (some zero) r = FirstPass cf s r
  HeaderFiltered g cf s (some (suc flag)) r = r ≡ ok tt s

  grow_length-grown :
      (footer : NgxStr) (s : Request)
      → grow_length ngx_list_push footer s
        ≡ ok tt (record s { content_length_n = grown_length footer s.content_length_n })
  unfolding grow_length
  grow_length-grown footer s = ground arith

  first-pass :
      (cf : NdgFilterConf) (s : Request)
      → PushesBack ngx_list_push
      → IsValid s.headers_out
      → FirstPass cf s (
          (do
            set_flag 1
            add_headers ngx_list_push (size cf.headers) 0 cf.headers
            grow_length ngx_list_push cf.footer)
            s)
  first-pass cf s law v = elim (add_headers-elements cf.headers (record s { ctx = some 1 }) law v) [
    | inl (l, r, w, e) ↦ inl (l, rw (r, grow_length-grown cf.footer _) refl, w, e)
    | inr (l, r, out) ↦ inr (l, rw r refl, out)
  ]

  HeaderFiltered-ctx :
      (g : Given) (cf : NdgFilterConf) (s : Request) (ctx : Option ℕ)
      → s.ctx ≡ ctx
      → PushesBack ngx_list_push
      → IsValid s.headers_out
      → HeaderFiltered g cf s ctx (do_header_filter ngx_list_push g cf s)
  unfolding do_header_filter data_of require raise
  HeaderFiltered-ctx g cf s none e law v = elim (Bool-cases g.ctx) [
    | inl given ↦ rw (given, e) (first-pass cf s law v)
    | inr out ↦ rw (out, e) refl
  ]
  HeaderFiltered-ctx g cf s (some zero) e law v = rw e (first-pass cf s law v)
  HeaderFiltered-ctx g cf s (some (suc flag)) e law v = ground arith

  -- The header filter adds every configured header, in order and behind the others, and grows a
  -- known content length by the footer's, the first time it sees a request and never again. With no
  -- memory for the context it throws and changes nothing; where `ngx_list_push` has
  -- none for a header it throws, and only the context and the header list have changed, by the headers
  -- before that one. The response's list is valid before, and
  -- `ngx_list_push` adds one element behind the others.
  pub do_header_filter-HeaderFiltered :
      (g : Given) (cf : NdgFilterConf) (s : Request)
      → PushesBack ngx_list_push
      → IsValid s.headers_out
      → HeaderFiltered g cf s s.ctx (do_header_filter ngx_list_push g cf s)
  do_header_filter-HeaderFiltered g cf s law v = HeaderFiltered-ctx g cf s s.ctx refl law v
