-- ===== src/LegacySubrequest.antt =====
-- legacy/subrequest/NdgSubrequestHandler.hpp: answers a request with the response of a subrequest, and a
-- text behind it. The state is the reply to the parent, with the list of its headers.
pub mod Sends
pub mod Answered
pub mod Ending
use ngx_cpp_dev.Base.{ℕ, ◌+◌, ◌%◌, ◌^◌, ◌==◌, Bool, true, false, not, ◌||◌, Option, if◌then◌else◌}
use ngx_cpp_dev.Base.Int.{ℤ}
use ngx_cpp_dev.Base.Run.{
  lifted, NgxException, Run, Cmd, ok, raised, fault, out_of_fuel, ◌>>=◌, ◌>>◌, catch, pure, modify,
  get,
}
use ngx_cpp_dev.Nginx.{
  Ptr, NgxStr, BufSize, TableElt, ngx_ok, ngx_done, ngx_http_not_allowed,
  ngx_http_internal_server_error,
}
use ngx_cpp_dev.Memory.{Memory, load_link, load_buf, modify_buf}
use ngx_cpp_dev.Buf.{is_last, finish}
use ngx_cpp_dev.NgxString.{off_t_of}
use ngx_cpp_dev.NgxList.{NgxList, visit}
use ngx_cpp_dev.Headers.{add}
use ngx_cpp_dev.Response.{Reply, Slot, method, set_length, send_chain, send_str, in_memory}

-- The subrequest, when it has ended: its status, its headers, and the chain of its body.
pub record Subrequest : Type 0 where
  pub status : ℕ
  pub headers : NgxList TableElt
  pub out : Ptr

pub record Parent : Type 0 where
  pub reply : Reply
  pub headers_out : NgxList TableElt

abbrev pub on_reply : {A : Type 0} → Cmd Reply A → Cmd Parent A
on_reply c s = lifted (λ x. record s { reply = x }) (c s.reply)

abbrev pub on_headers : {A : Type 0} → Cmd (NgxList TableElt) A → Cmd Parent A
on_headers c s = lifted (λ x. record s { headers_out = x }) (c s.headers_out)

-- The text that is sent behind the response: ten characters at `p`.
abbrev pub text : Ptr → NgxStr
text p = record { len = 10; data_ptr = p }

-- `sub_post(r, data, rc)`
unfoldable pub sub_post : {S : Type 0} → Cmd S ℤ
sub_post = pure ngx_ok

-- The length that is announced: of the text, and of the first buffer of the subrequest's chain.
unfoldable pub announced_length : BufSize → NgxStr → Ptr → Cmd Memory ℤ
announced_length api msg out = do
  ch ← load_link out
  b ← load_buf ch.buf
  pure (off_t_of (msg.len + api.size b))

-- The chain's first buffer, which must be a last one, is not the last of the answer.
unfoldable pub unfinish : Ptr → Cmd Memory (Unit {0})
unfolding is_last
unfinish out = do
  ch ← load_link out
  b ← load_buf ch.buf
  if not (is_last b) then (λ _. fault) else modify_buf ch.buf (finish false)

module _ (api : BufSize) (ngx_list_push : TableElt → NgxList TableElt → Option (NgxList TableElt))
    (ngx_http_send_header : Cmd Reply ℤ) (ngx_http_output_filter : Ptr → Cmd Reply ℤ)
    (ngx_http_send_last : Cmd Reply ℤ) where
  -- What is sent once the length and the headers are set.
  unfoldable pub send_all : Subrequest → (literal : Ptr) → Slot → Cmd Reply ℤ
  send_all sr literal for_text = do
    in_memory (unfinish sr.out)
    send_chain ngx_http_send_header ngx_http_output_filter sr.out
    send_str ngx_http_send_header ngx_http_output_filter for_text (text literal)
    ngx_http_send_last
    pure ngx_ok

  -- `parent_post(r)`, with the fuel of the loop over the subrequest's headers.
  unfoldable pub parent_post : ℕ → Subrequest → (literal : Ptr) → Slot → Cmd Parent ℤ
  parent_post k sr literal for_text =
      if not (sr.status == 200) then pure ngx_http_internal_server_error else do
        len ← on_reply (in_memory (announced_length api (text literal) sr.out))
        on_reply (set_length len)
        visit k (λ x. on_headers (add ngx_list_push x)) sr.headers
        on_reply (send_all sr literal for_text)

-- `handler`: `create_subrequest` is the creation of a subrequest for the configured location.
unfoldable pub handler :
    {S : Type 0} → (create_subrequest : Cmd S (Unit {0})) → (own get_method : ℕ) → Cmd S ℤ
unfolding method
handler create_subrequest own get_method =
    catch
      (if not (method own get_method)
        then pure ngx_http_not_allowed
        else do create_subrequest; pure ngx_done)
      (λ (e : NgxException). pure e.code)
