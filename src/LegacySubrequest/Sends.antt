-- ===== src/LegacySubrequest/Sends.antt =====
-- How legacy/subrequest/NdgSubrequestHandler.hpp sends the body of the subrequest and the text.
use ngx_cpp_dev.Base.{
  ℕ, ◌+◌, ◌≡◌, ◌≢◌, refl, ap, true, false, ◌⊎◌, inl, inr, Option, List, [], ◌∷◌, arith,
}
use ngx_cpp_dev.Base.Int.{ℤ}
use ngx_cpp_dev.Base.Run.{Run, Cmd, ok, raised, ◌>>◌, pure}
use ngx_cpp_dev.Nginx.{null, Ptr, BufSize, TableElt, ngx_ok}
use ngx_cpp_dev.Exception.{exception_of}
use ngx_cpp_dev.Memory.{Memory, update}
use ngx_cpp_dev.Memory.Chains.{Cell, Holds, end, node, load_link-ok, load_buf-ok, modify_buf-ok}
use ngx_cpp_dev.Buf.{is_last, finish}
use ngx_cpp_dev.NgxList.{NgxList}
use ngx_cpp_dev.Response.{Reply, Slot, send_chain, send_str}
use ngx_cpp_dev.Response.Sending.{
  SendsHeader, TakesChain, Available, bad_rc, with_status, send_chain-with_status,
  send_header-cases, send_chain-Passed, send_chain-Refused, send_str-later,
}
use ngx_cpp_dev.Echo.Length.{SendsNoByte}
use ngx_cpp_dev.LegacySubrequest.{Subrequest, text, unfinish, send_all}

abbrev unfinished : Cell → Cell
unfinished c = record c { buf = record c.buf { last_buf = false; last_in_chain = false } }

unfinish-Holds :
    {m : Memory} {p : Ptr} (c : Cell)
    → Holds m p (c ∷ [])
    → is_last c.buf ≡ true
    → (m' : Memory) × (unfinish p m ≡ ok tt m') × Holds m' p (unfinished c ∷ [])
unfolding unfinish finish
unfinish-Holds {m} c (node {p} {b} {q} {v} n end) last = (
  record m { bufs = update m.bufs b (finish false v) },
  rw (load_link-ok n, load_buf-ok n, last, modify_buf-ok n (finish false)) refl,
  node (ground arith) end,
)

Holds-not_null : {m : Memory} {p : Ptr} {c : Cell} {cs : List Cell} → Holds m p (c ∷ cs) → p ≢ null
Holds-not_null (node n rest) = n.node_ne_null

with_status-set : (r : Reply) → (with_status r).status ≢ 0
with_status-set r = ground arith

module _ (api : BufSize) (ngx_list_push : TableElt → NgxList TableElt → Option (NgxList TableElt))
    (ngx_http_send_header : Cmd Reply ℤ) (ngx_http_output_filter : Ptr → Cmd Reply ℤ)
    (ngx_http_send_last : Cmd Reply ℤ) (code : ℤ) where
  -- nginx has taken `n` bytes; or it refused the header.
  abbrev pub Sent : Reply → ℕ → Run Reply ℤ → Type 0
  Sent r n run =
      ((bad_rc code ≡ false)
        × (m : Memory) × (run
            ≡ ok ngx_ok
                (record (with_status r) { memory = m; header_sent = true; passed = r.passed + n })))
      ⊎ ((bad_rc code ≡ true)
          × (m : Memory) × (run
              ≡ raised (exception_of code)
                  (record (with_status r) { memory = m; header_sent = true })))

  module _ (sends : SendsHeader ngx_http_send_header code)
      (takes : TakesChain api ngx_http_output_filter) (ends : SendsNoByte ngx_http_send_last)
      (sr : Subrequest) (literal : Ptr) (for_text : Slot) (slot : Available for_text) where
    send_rest-Sent :
        (r : Reply) (c : Cell)
        → Holds r.memory sr.out (c ∷ [])
        → sr.out ≢ null
        → r.header_only ≡ false
        → r.header_sent ≡ false
        → Sent r (api.size c.buf + 10) (
            (send_chain ngx_http_send_header ngx_http_output_filter sr.out
                >> (send_str ngx_http_send_header ngx_http_output_filter for_text (text literal)
                    >> (ngx_http_send_last >> pure ngx_ok)))
              r)
    send_rest-Sent r c h ne only unsent =
        let t = with_status r in
        elim (send_header-cases api ngx_http_send_header ngx_http_output_filter code t sends
          (with_status-set r)) [
            | inl (out, rc, e) ↦
                let (rc', m, f) =
                  send_chain-Passed api ngx_http_send_header ngx_http_output_filter code sends takes
                    sr.out c t h ne only e in
                let u : Reply = record t {
                  memory = m;
                  header_sent = true;
                  passed = r.passed + api.size c.buf;
                } in
                let (rc2, m2, f2) =
                  send_str-later api ngx_http_send_header ngx_http_output_filter code sends takes
                    for_text (text literal) u slot only refl in
                let (rc3, f3) =
                  ends (record u { memory = m2; passed = r.passed + api.size c.buf + 10 }) in
                inl (
                  ground arith,
                  m2,
                  rw
                      (
                        send_chain-with_status api ngx_http_send_header ngx_http_output_filter code
                            sr.out r unsent,
                        f,
                        f2,
                        f3,
                      )
                      (ap
                        (λ n. ok ngx_ok (record t { memory = m2; header_sent = true; passed = n }))
                        (omega arith)),
                )
            | inr (held, e) ↦
                let (m, f) =
                  send_chain-Refused api ngx_http_send_header ngx_http_output_filter code sends
                    takes sr.out t e in
                inr (
                  ground arith,
                  m,
                  rw
                      (
                        send_chain-with_status api ngx_http_send_header ngx_http_output_filter code
                            sr.out r unsent,
                        f,
                      )
                      refl,
                )
          ]

    pub send_all-Sent :
        (r : Reply) (c : Cell)
        → Holds r.memory sr.out (c ∷ [])
        → is_last c.buf ≡ true
        → r.header_only ≡ false
        → r.header_sent ≡ false
        → Sent r (api.size c.buf + 10) (
            send_all api ngx_list_push ngx_http_send_header ngx_http_output_filter
              ngx_http_send_last sr literal for_text r)
    unfolding send_all
    send_all-Sent r c h last only unsent =
        let (m, e, h') = unfinish-Holds c h last in
        let same = api.size_of_flags c.buf false false in
        let rest =
          send_rest-Sent (record r { memory = m }) (unfinished c) h' (Holds-not_null h') only
            unsent in
        rw e (rw same at rest)
