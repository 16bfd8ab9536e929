-- ===== src/LegacySubrequest/Answered.antt =====
-- What legacy/subrequest/NdgSubrequestHandler.hpp sends: the subrequest's response and the text.
use ngx_cpp_dev.Base.{none, ◌==◌, if◌then◌else◌}
use ngx_cpp_dev.Response.Sending.{bad_rc}
use ngx_cpp_dev.Base.{
  ℕ, ◌+◌, ◌<◌, ◌^◌, ◌==◌, ◌≡◌, ◌∙◌, refl, sym, ap, true, false, ◌⊎◌, inl, inr, Option, List, [],
  ◌∷◌, ◌++◌, map, length, arith,
}
use ngx_cpp_dev.Base.Int.{ℤ, pos}
use ngx_cpp_dev.Base.Run.{
  NgxException, lifted, for_each-map, and_then-lifted, Run, Cmd, ok, raised, for_each,
}
use ngx_cpp_dev.Nginx.{Ptr, NgxStr, BufSize, TableElt, ngx_ok, ngx_error}
use ngx_cpp_dev.Exception.{exception_of}
use ngx_cpp_dev.Memory.{Memory}
use ngx_cpp_dev.Memory.Chains.{Cell, Holds, end, node, load_link-ok, load_buf-ok}
use ngx_cpp_dev.Buf.{is_last}
use ngx_cpp_dev.NgxString.{off_t_of}
use ngx_cpp_dev.NgxList.{NgxList, IsValid, PushesBack, items, push}
use ngx_cpp_dev.NgxList.Order.{visit-for_each}
use ngx_cpp_dev.NgxList.Growth.{for_each-Pushed}
use ngx_cpp_dev.Headers.{add}
use ngx_cpp_dev.Response.{Reply, Slot, set_length}
use ngx_cpp_dev.Response.Sending.{SendsHeader, TakesChain, Available, with_status}
use ngx_cpp_dev.Echo.Length.{SendsNoByte}
use ngx_cpp_dev.LegacySubrequest.Sends.{send_all-Sent}
use ngx_cpp_dev.LegacySubrequest.{
  visit, Subrequest, Parent, on_headers, text, announced_length, parent_post,
}

-- The announced length, for a text and a buffer that are together shorter than half of the memory.
announced_length-exact :
    (api : BufSize) (msg : NgxStr) {m : Memory} {p : Ptr} (c : Cell)
    → Holds m p (c ∷ [])
    → msg.len + api.size c.buf < 2 ^ 63
    → announced_length api msg p m ≡ ok (pos (msg.len + api.size c.buf)) m
unfolding announced_length off_t_of
announced_length-exact api msg c (node {v} n end) small =
    rw (load_link-ok n, load_buf-ok n) (ground arith)

-- A header as nginx sends it: with a hash that is not 0.
abbrev pub with_hash : TableElt → TableElt
with_hash x = if x.hash == 0 then record x { hash = 1 } else x

for_each-on_headers :
    (f : TableElt → Cmd (NgxList TableElt) (Unit {0})) (xs : List TableElt) (s : Parent)
    → for_each (λ x. on_headers (f x)) xs s
      ≡ lifted (λ l. record s { headers_out = l }) (for_each f xs s.headers_out)
for_each-on_headers f [] s = refl
for_each-on_headers f (x ∷ xs) s =
    and_then-lifted (λ l. record s { headers_out = l }) (f x s.headers_out)
      (λ u. for_each (λ y. on_headers (f y)) xs) (λ u. for_each f xs)
      (λ u l. for_each-on_headers f xs (record s { headers_out = l }))

module _ (api : BufSize) (ngx_list_push : TableElt → NgxList TableElt → Option (NgxList TableElt))
    (ngx_http_send_header : Cmd Reply ℤ) (ngx_http_output_filter : Ptr → Cmd Reply ℤ)
    (ngx_http_send_last : Cmd Reply ℤ) (code : ℤ) where
  -- The headers before `x` were added, and nginx has no memory for `x`.
  abbrev pub NoRoom : Subrequest → NgxList TableElt → NgxList TableElt → Type 0
  NoRoom sr before l =
      (first : List TableElt) × (x : TableElt) × (rest : List TableElt) × (map with_hash
          (items sr.headers)
        ≡ first ++ x ∷ rest)
      × (items l ≡ items before ++ first)
      × (ngx_list_push x l ≡ none)

  -- The headers of the subrequest stand behind the parent's, and the body is as long as announced; or
  -- nothing of it was sent, since nginx refuses the header or has no memory for one that is added.
  abbrev pub Answered : Subrequest → ℕ → Parent → Run Parent ℤ → Type 0
  Answered sr n s run =
      ((t : Parent) × (run ≡ ok ngx_ok t)
        × (bad_rc code ≡ false)
        × (t.reply.content_length_n ≡ pos n)
        × (t.reply.passed ≡ s.reply.passed + n)
        × (items t.headers_out ≡ items s.headers_out ++ map with_hash (items sr.headers)))
      ⊎ ((e : NgxException) × (t : Parent) × (run ≡ raised e t)
          × ((bad_rc code ≡ true) ⊎ NoRoom sr s.headers_out t.headers_out)
          × (t.reply.passed ≡ s.reply.passed))

  -- What the headers' part of the answer leaves.
  abbrev HeadersAdded : Subrequest → Parent → Run Parent (Unit {0}) → Type 0
  HeadersAdded sr s run =
      ((l : NgxList TableElt) × (run ≡ ok tt (record s { headers_out = l }))
        × (items l ≡ items s.headers_out ++ map with_hash (items sr.headers)))
      ⊎ ((l : NgxList TableElt) × (run
            ≡ raised (exception_of ngx_error) (record s { headers_out = l }))
          × NoRoom sr s.headers_out l)

  headers-HeadersAdded :
      (k : ℕ) (sr : Subrequest) (s : Parent)
      → PushesBack ngx_list_push
      → IsValid sr.headers
      → IsValid s.headers_out
      → length (items sr.headers) < k
      → HeadersAdded sr s (visit k (λ x. on_headers (add ngx_list_push x)) sr.headers s)
  unfolding add
  headers-HeadersAdded k sr s law v w fuel =
      let all =
        visit-for_each k (λ x. on_headers (add ngx_list_push x)) sr.headers s v fuel
        ∙ for_each-on_headers (add ngx_list_push) (items sr.headers) s
        ∙ ap (lifted (λ l. record s { headers_out = l }))
            (sym (for_each-map (push ngx_list_push) with_hash (items sr.headers) s.headers_out)) in
      elim (for_each-Pushed ngx_list_push (map with_hash (items sr.headers)) s.headers_out law w) [
        | inl (l, e, u, grown) ↦ inl (l, all ∙ rw e refl, grown)
        | inr (l, first, x, rest, e, u, split, grown, out) ↦
            inr (l, all ∙ rw e refl, (first, x, rest, split, grown, out))
      ]

  -- Where the subrequest succeeded with a body in one last buffer, its headers are added behind the
  -- parent's, each with a hash, and nginx takes as many bytes as the length announces: the buffer's
  -- and ten of the text. Else there is no memory for a header, or nginx refuses the header, and no
  -- byte of the body is sent. The header is not out yet, and the response has a body; the lists are
  -- valid, the lengths fit, the allocator's addresses are not null, nginx's functions do what their
  -- hypotheses say, and the fuel is more than the number of headers.
  pub parent_post-Answered :
      (sends : SendsHeader ngx_http_send_header code)
      (takes : TakesChain api ngx_http_output_filter) (ends : SendsNoByte ngx_http_send_last)
      (law : PushesBack ngx_list_push) (k : ℕ) (sr : Subrequest) (literal : Ptr) (for_text : Slot)
      (s : Parent) (c : Cell)
      → Available for_text
      → (sr.status == 200) ≡ true
      → Holds s.reply.memory sr.out (c ∷ [])
      → is_last c.buf ≡ true
      → 10 + api.size c.buf < 2 ^ 63
      → s.reply.header_only ≡ false
      → s.reply.header_sent ≡ false
      → IsValid sr.headers
      → IsValid s.headers_out
      → length (items sr.headers) < k
      → Answered sr (10 + api.size c.buf) s (
          parent_post api ngx_list_push ngx_http_send_header ngx_http_output_filter
            ngx_http_send_last k sr literal for_text s)
  unfolding parent_post set_length
  parent_post-Answered sends takes ends law k sr literal for_text s c slot success h last small only
        unsent v w fuel =
      let n = 10 + api.size c.buf in
      let announced = announced_length-exact api (text literal) c h small in
      let s1 : Parent = record s { reply = record s.reply { content_length_n = pos n } } in
      elim (headers-HeadersAdded k sr s1 law v w fuel) [
        | inl (l, e, grown) ↦
            elim (send_all-Sent api ngx_list_push ngx_http_send_header ngx_http_output_filter
              ngx_http_send_last code sends takes ends sr literal for_text slot s1.reply c h last
              only unsent) [
                | inl (fine, m, f) ↦ inl (
                  record s1 {
                    headers_out = l;
                    reply = record (with_status s1.reply) {
                      memory = m;
                      header_sent = true;
                      passed = s.reply.passed + (api.size c.buf + 10);
                    };
                  },
                  rw (success, announced, e, f) refl,
                  fine,
                  refl,
                  omega arith,
                  grown,
                )
                | inr (bad, m, f) ↦ inr (
                  exception_of code,
                  record s1 {
                    headers_out = l;
                    reply = record (with_status s1.reply) { memory = m; header_sent = true };
                  },
                  rw (success, announced, e, f) refl,
                  inl bad,
                  refl,
                )
              ]
        | inr (l, e, out) ↦ inr (
          exception_of ngx_error,
          record s1 { headers_out = l },
          rw (success, announced, e) refl,
          inr out,
          refl,
        )
      ]
