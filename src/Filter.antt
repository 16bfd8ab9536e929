-- ===== src/Filter.antt =====
-- http/filter/NdgFilterHandler.hpp: adds configured headers to a response and a footer to its body.
-- The request is the part of `ngx_http_request_t` that the handler reads and writes.
pub mod Footer
pub mod Header
pub mod Body
pub mod Length
use ngx_cpp_dev.NgxString.{off_t_of, str_empty}
use ngx_cpp_dev.Pool.{buffer, chain}
use ngx_cpp_dev.Base.{
  false, true, ℕ, zero, suc, ◌+◌, ◌-◌, ◌%◌, ◌^◌, ◌==◌, Bool, not, ◌||◌, ltb, Option, none, some,
  if◌then◌else◌,
}
use ngx_cpp_dev.Base.Int.{ℤ, pos, negsuc, pos_part, ltb_ℤ}
use ngx_cpp_dev.Base.Run.{
  lifted, NgxException, Cmd, ok, raised, fault, out_of_fuel, ◌>>=◌, ◌>>◌, catch, pure, modify,
}
use ngx_cpp_dev.Nginx.{Buf, null, BufSize, Ptr, is_null, NgxStr, KeyVal, TableElt, ngx_error}
use ngx_cpp_dev.Exception.{require}
use ngx_cpp_dev.Memory.{set_next, set_buf, modify_buf, load_buf, load_link, Memory}
use ngx_cpp_dev.NgxList.{NgxList}
use ngx_cpp_dev.NgxArray.{Array, size, at}
use ngx_cpp_dev.Headers.{add}

-- `NdgFilterConf`
pub record NdgFilterConf : Type 0 where
  pub headers : Array KeyVal
  pub footer : NgxStr

-- `ctx` is the module's context, none until it is first asked for; its value is `NdgFilterCtx::flag`.
pub record Request : Type 0 where
  pub memory : Memory
  pub ctx : Option ℕ
  pub content_length_n : ℤ
  pub headers_out : NgxList TableElt

-- What nginx's allocator gives the handler: whether there is memory for a context, and the
-- addresses of a buffer and of a chain link, with what the link's memory held.
pub record Given : Type 0 where
  pub ctx : Bool
  pub buf : Ptr
  pub link : Ptr
  pub uninitialised : Ptr

-- Commands on the memory and on the header list of the request.
abbrev pub on_memory : {A : Type 0} → Cmd Memory A → Cmd Request A
on_memory c r = lifted (λ x. record r { memory = x }) (c r.memory)

abbrev pub on_headers : {A : Type 0} → Cmd (NgxList TableElt) A → Cmd Request A
on_headers c r = lifted (λ x. record r { headers_out = x }) (c r.headers_out)

-- `this_module::data(r)`: the context is allocated, with the flag 0, when there is none.
abbrev pub ctx_flag : Bool → Option ℕ → Cmd Request ℕ
ctx_flag given none = do require given ngx_error; modify (λ r. record r { ctx = some 0 }); pure 0
ctx_flag given (some flag) = pure flag

unfoldable pub data_of : Given → Cmd Request ℕ
unfolding require
data_of g r = ctx_flag g.ctx r.ctx r

abbrev pub set_flag : ℕ → Cmd Request (Unit {0})
set_flag n = modify (λ r. record r { ctx = some n })

abbrev pub table_elt : KeyVal → TableElt
table_elt kv = record { hash = 1; key = kv.key; value = kv.value }

module _ (ngx_list_push : TableElt → NgxList TableElt → Option (NgxList TableElt)) where
  -- The loop over the configured headers from index `i`, with `n` rounds left.
  unfoldable pub add_headers : ℕ → ℕ → Array KeyVal → Cmd Request (Unit {0})
  add_headers zero i headers = pure tt
  add_headers (suc n) i headers =
      let rest = add_headers n (i + 1) headers in
      do header ← at headers i; on_headers (add ngx_list_push (table_elt header)); rest

  -- The end of `do_header_filter`: the length grows by the footer's, if there is a length.
  unfoldable pub grow_length : NgxStr → Cmd Request (Unit {0})
  grow_length footer =
      if str_empty footer
      then pure tt
      else modify (λ r.
        if ltb_ℤ (pos 0) r.content_length_n
        then record r { content_length_n = off_t_of (pos_part r.content_length_n + footer.len) }
        else r)

  unfoldable pub do_header_filter : Given → NdgFilterConf → Cmd Request (Unit {0})
  unfolding data_of grow_length
  do_header_filter g cf = do
    flag ← data_of g
    if not (flag == 0)
        then pure tt
        else do set_flag 1; add_headers (size cf.headers) 0 cf.headers; grow_length cf.footer

  -- `header_filter`; `next` is the filter that was on top before this one.
  unfoldable pub header_filter : (next : Cmd Request ℤ) → Given → NdgFilterConf → Cmd Request ℤ
  unfolding do_header_filter
  header_filter next g cf =
      catch (do do_header_filter g cf; next) (λ (e : NgxException). pure e.code)

-- The loop that looks for the node whose buffer ends the response; null if there is none.
unfoldable pub find_last_buf : ℕ → Ptr → Cmd Memory Ptr
find_last_buf zero p = λ _. out_of_fuel
find_last_buf (suc k) p =
    let rest = find_last_buf k in
    if is_null p
    then pure null
    else do n ← load_link p; b ← load_buf n.buf; if b.last_buf then pure p else rest n.next

-- The buffer of the footer, from the zeroed buffer that the pool gave. The footer lies in memory, so
-- that its end does not wrap.
abbrev pub footer_buf : NgxStr → Buf → Buf
footer_buf footer b = record b {
  pos_ptr = footer.data_ptr;
  last_ptr = footer.data_ptr + footer.len;
  memory = true;
  last_buf = true;
  last_in_chain = true;
}

abbrev pub not_last : Buf → Buf
not_last b = record b { last_buf = false; last_in_chain = false }

-- The footer goes into the last node `p`, or behind it if its buffer is not empty.
unfoldable pub put_footer : BufSize → Given → NgxStr → Ptr → Cmd Memory (Unit {0})
put_footer api g footer p = do
  b ← buffer g.buf
  modify_buf b (footer_buf footer)
  n ← load_link p
  old ← load_buf n.buf
  if api.size old == 0 then set_buf p b else do
    out ← chain g.link g.uninitialised
    set_buf out b
    set_next out null
    set_next p out
    modify_buf n.buf not_last

-- `do_body_filter`, with the fuel of its loop first.
unfoldable pub do_body_filter : BufSize → ℕ → Given → NdgFilterConf → Ptr → Cmd Request (Unit {0})
unfolding data_of
do_body_filter api k g cf input = if str_empty cf.footer then pure tt else do
  flag ← data_of g
  if not (flag == 1) then pure tt else do
    p ← on_memory (find_last_buf k input)
    if is_null p then pure tt else do set_flag 2; on_memory (put_footer api g cf.footer p)

-- `body_filter`
unfoldable pub body_filter :
    (next : Ptr → Cmd Request ℤ) → BufSize → ℕ → Given → NdgFilterConf → Ptr → Cmd Request ℤ
unfolding do_body_filter
body_filter next api k g cf input =
    catch (do do_body_filter api k g cf input; next input) (λ (e : NgxException). pure e.code)
