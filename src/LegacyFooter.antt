-- ===== src/LegacyFooter.antt =====
-- legacy/footer/NdgFooterHandler.hpp and legacy/footer/NdgFooterConf.hpp, the module from which
-- http/filter was made: it works on the same part of a request and with the same wrappers.
pub mod Body
pub mod Same
use ngx_cpp_dev.Base.{some, none, Bool, Option, ℕ, zero, suc, ◌==◌, not, true, false, if◌then◌else◌}
use ngx_cpp_dev.Base.Int.{ℤ}
use ngx_cpp_dev.Base.Run.{ok, Run, NgxException, Cmd, out_of_fuel, ◌>>=◌, ◌>>◌, catch, pure}
use ngx_cpp_dev.Nginx.{
  Ptr, null, is_null, NgxStr, BufSize, KeyVal, TableElt, ngx_null_string, ngx_error, ngx_ok,
}
use ngx_cpp_dev.Exception.{require}
use ngx_cpp_dev.NgxString.{str_empty}
use ngx_cpp_dev.Memory.{Memory, load_link, load_buf, modify_buf}
use ngx_cpp_dev.Buf.{range_str, is_last, finish}
use ngx_cpp_dev.Pool.{buffer, chain}
use ngx_cpp_dev.Chain.{link, node_finish, set, increment}
use ngx_cpp_dev.NgxList.{NgxList}
use ngx_cpp_dev.NgxArray.{Array, size}
use ngx_cpp_dev.NgxFilter.{Tops, init, module_filter}
use ngx_cpp_dev.Filter.{Request, Given, on_memory, data_of, set_flag, add_headers, grow_length}

pub record NdgFooterConf : Type 0 where
  pub headers : Array KeyVal
  pub footer : NgxStr

-- `create(cf)`: `alloc` zeroes the configuration; `given` says whether the pool has memory.
unfoldable pub create : {S : Type 0} → (given : Bool) → Cmd S NdgFooterConf
unfolding require
create given = do
  require given ngx_error
  pure (record { headers = none; footer = ngx_null_string })

-- `init(cf)` of the module `tag`
unfoldable pub init_filters : (tag : ℕ) → Tops → Run Tops ℤ
unfolding init
init_filters tag s = ok ngx_ok (init tag (some (module_filter tag)) (some (module_filter tag)) s)

module _ (ngx_list_push : TableElt → NgxList TableElt → Option (NgxList TableElt)) where
  unfoldable pub do_header_filter : Given → NdgFooterConf → Cmd Request (Unit {0})
  unfolding data_of
  do_header_filter g cf = do
    flag ← data_of g
    if not (flag == 0) then pure tt else do
      set_flag 1
      add_headers ngx_list_push (size cf.headers) 0 cf.headers
      grow_length ngx_list_push cf.footer

  unfoldable pub header_filter : (next : Cmd Request ℤ) → Given → NdgFooterConf → Cmd Request ℤ
  unfolding do_header_filter
  header_filter next g cf =
      catch (do do_header_filter g cf; next) (λ (e : NgxException). pure e.code)

-- The loop that looks for the node whose buffer is a last one; null if there is none.
unfoldable pub find_last : ℕ → Ptr → Cmd Memory Ptr
unfolding is_last increment
find_last zero p = λ _. out_of_fuel
find_last (suc k) p =
    let rest = find_last k in
    if is_null p then pure null else do
      n ← load_link p
      b ← load_buf n.buf
      if is_last b then pure p else do q ← increment p; rest q

-- The footer goes into the last node `p`, or behind it if its buffer is not empty.
unfoldable pub put_footer : BufSize → Given → NgxStr → Ptr → Cmd Memory (Unit {0})
put_footer api g footer p = do
  buf ← buffer g.buf
  modify_buf buf (range_str footer)
  modify_buf buf (finish true)
  c ← load_link p
  old ← load_buf c.buf
  if api.size old == 0 then set p buf else do
    n ← chain g.link g.uninitialised
    set n buf
    node_finish n
    link p n
    modify_buf c.buf (finish false)

unfoldable pub do_body_filter : BufSize → ℕ → Given → NdgFooterConf → Ptr → Cmd Request (Unit {0})
unfolding data_of
do_body_filter api k g cf input = if str_empty cf.footer then pure tt else do
  flag ← data_of g
  if not (flag == 1) then pure tt else do
    p ← on_memory (find_last k input)
    if is_null p then pure tt else do set_flag 2; on_memory (put_footer api g cf.footer p)

unfoldable pub body_filter :
    (next : Ptr → Cmd Request ℤ) → BufSize → ℕ → Given → NdgFooterConf → Ptr → Cmd Request ℤ
unfolding do_body_filter
body_filter next api k g cf input =
    catch (do do_body_filter api k g cf input; next input) (λ (e : NgxException). pure e.code)
