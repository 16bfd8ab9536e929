-- ===== src/LegacySubrequest/Ending.antt =====
-- The end of a subrequest of legacy/subrequest/NdgSubrequestHandler.hpp: its callbacks, run by
-- ngxpp/NgxSubRequest.hpp, up to the end of the parent.
use ngx_cpp_dev.Base.{
  ℕ, ◌+◌, ◌<◌, ◌^◌, ◌==◌, ◌≡◌, refl, true, false, ◌⊎◌, inl, inr, Option, List, [], ◌∷◌, ◌++◌, map,
  length, if◌then◌else◌, Bool-cases,
}
use ngx_cpp_dev.Base.Int.{ℤ, pos}
use ngx_cpp_dev.Base.Run.{Run, Cmd, ok, ◌>>◌, modify, lifted}
use ngx_cpp_dev.Nginx.{Ptr, BufSize, TableElt, ngx_ok, ngx_http_internal_server_error}
use ngx_cpp_dev.Memory.Chains.{Cell, Holds}
use ngx_cpp_dev.Buf.{is_last}
use ngx_cpp_dev.NgxList.{NgxList, IsValid, PushesBack, items}
use ngx_cpp_dev.Response.{Reply, Slot}
use ngx_cpp_dev.Response.Sending.{SendsHeader, TakesChain, Available, bad_rc}
use ngx_cpp_dev.Echo.Length.{SendsNoByte}
use ngx_cpp_dev.SubRequest
use ngx_cpp_dev.SubRequest.{State, parent_post_handler, ngx_http_core_run_phases, other_handler}
use ngx_cpp_dev.LegacySubrequest.{Subrequest, Parent, sub_post, parent_post}
use ngx_cpp_dev.LegacySubrequest.Answered.{parent_post-Answered, with_hash, NoRoom}

-- Both requests, the reply to the parent, and the codes with which the parent was finalized.
pub record World : Type 0 where
  pub requests : State
  pub parent : Parent
  pub finalized : List ℤ

abbrev pub on_requests : {A : Type 0} → Cmd State A → Cmd World A
on_requests c s = lifted (λ x. record s { requests = x }) (c s.requests)

abbrev pub on_parent : {A : Type 0} → Cmd Parent A → Cmd World A
on_parent c s = lifted (λ x. record s { parent = x }) (c s.parent)

abbrev pub finalize : ℤ → Cmd World (Unit {0})
finalize rc = modify (λ s. record s { finalized = s.finalized ++ rc ∷ [] })

module _ (api : BufSize) (ngx_list_push : TableElt → NgxList TableElt → Option (NgxList TableElt))
    (ngx_http_send_header : Cmd Reply ℤ) (ngx_http_output_filter : Ptr → Cmd Reply ℤ)
    (ngx_http_send_last : Cmd Reply ℤ) (run_phases other : Cmd World (Unit {0})) (code : ℤ) where
  -- nginx runs the function that is the parent's `write_event_handler`.
  abbrev pub run_write_handler : ℕ → Subrequest → (literal : Ptr) → Slot → Cmd World (Unit {0})
  run_write_handler k sr literal for_text s = elim s.requests.parent.write_event_handler [
    | ngx_http_core_run_phases ↦ run_phases s
    | other_handler ↦ other s
    | parent_post_handler ↦
        SubRequest.parent_post finalize
          (on_parent (
            parent_post api ngx_list_push ngx_http_send_header ngx_http_output_filter
              ngx_http_send_last k sr literal for_text))
          s
  ]

  -- The subrequest ends, and nginx goes on with the parent.
  abbrev pub ended : ℕ → Subrequest → (literal : Ptr) → Slot → Cmd World (Unit {0})
  ended k sr literal for_text = do
    on_requests (SubRequest.sub_post true sub_post)
    run_write_handler k sr literal for_text

  -- What became of the parent: finalized with an error and nothing sent; or finalized as done, with
  -- exactly the announced bytes and the subrequest's headers sent; or not finalized, and nothing sent,
  -- since nginx refused the header with `code` or had no memory for one that is added.
  abbrev pub Ended : Subrequest → ℕ → World → Run World (Unit {0}) → Type 0
  Ended sr n s run =
      (t : World) × (run ≡ ok tt t)
      × (if sr.status == 200
          then ((bad_rc code ≡ false)
              × (t.finalized ≡ s.finalized ++ ngx_ok ∷ [])
              × (t.parent.reply.content_length_n ≡ pos n)
              × (t.parent.reply.passed ≡ s.parent.reply.passed + n)
              × (items t.parent.headers_out
                  ≡ items s.parent.headers_out ++ map with_hash (items sr.headers)))
            ⊎ (((bad_rc code ≡ true)
                  ⊎ NoRoom api ngx_list_push ngx_http_send_header ngx_http_output_filter
                      ngx_http_send_last code sr s.parent.headers_out t.parent.headers_out)
                × (t.finalized ≡ s.finalized)
                × (t.parent.reply.passed ≡ s.parent.reply.passed))
          else (t.finalized ≡ s.finalized ++ ngx_http_internal_server_error ∷ [])
            × (t.parent ≡ s.parent))

  -- When a subrequest has ended, the parent is finalized once: with `NGX_OK` if the announced length,
  -- the headers and the bytes of the subrequest's response and of the text behind it were all taken;
  -- with the internal server error, and nothing sent, if the subrequest's status is not 200. Only if
  -- nginx has no memory for one of the headers, or refuses the header, no byte is sent and the parent
  -- is not finalized at all; and it is finalized as done only if nginx does not refuse the header,
  -- for which it returns one code. The subrequest's body is one last buffer, shorter than half of
  -- memory with the text; the parent's header is not out and it wants a body; both header lists are
  -- valid, there is memory for the text, nginx's functions do what they document, and the fuel is more
  -- than the number of headers.
  pub ended-Ended :
      (sends : SendsHeader ngx_http_send_header code)
      (takes : TakesChain api ngx_http_output_filter) (ends : SendsNoByte ngx_http_send_last)
      (law : PushesBack ngx_list_push) (k : ℕ) (sr : Subrequest) (literal : Ptr) (for_text : Slot)
      (s : World) (c : Cell)
      → Available for_text
      → Holds s.parent.reply.memory sr.out (c ∷ [])
      → is_last c.buf ≡ true
      → 10 + api.size c.buf < 2 ^ 63
      → s.parent.reply.header_only ≡ false
      → s.parent.reply.header_sent ≡ false
      → IsValid sr.headers
      → IsValid s.parent.headers_out
      → length (items sr.headers) < k
      → Ended sr (10 + api.size c.buf) s (ended k sr literal for_text s)
  unfolding SubRequest.sub_post SubRequest.parent_post sub_post parent_post
  ended-Ended sends takes ends law k sr literal for_text s c slot h last small only unsent v w
        fuel =
      let requests : State = record s.requests {
        parent = record s.requests.parent { write_event_handler = parent_post_handler };
      } in
      elim (Bool-cases (sr.status == 200)) [
        | inl success ↦
            elim (parent_post-Answered api ngx_list_push ngx_http_send_header ngx_http_output_filter
              ngx_http_send_last code sends takes ends law k sr literal for_text s.parent c slot
              success h last small only unsent v w fuel) [
                | inl (t, e, fine, announced, passed, grown) ↦ (
                  record {
                    requests = requests;
                    parent = t;
                    finalized = s.finalized ++ ngx_ok ∷ [];
                  },
                  rw e refl,
                  rw success (inl (fine, refl, announced, passed, grown)),
                )
                | inr (err, t, e, why, passed) ↦ (
                  record { requests = requests; parent = t; finalized = s.finalized },
                  rw e refl,
                  rw success (inr (why, refl, passed)),
                )
              ]
        | inr failure ↦ (
          record s {
            requests = requests;
            finalized = s.finalized ++ ngx_http_internal_server_error ∷ [];
          },
          rw failure refl,
          rw failure (refl, refl),
        )
      ]
