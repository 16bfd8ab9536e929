-- ===== src/LegacyFooter/Same.antt =====
-- How far legacy/footer/NdgFooterHandler.hpp does the same as http/filter/NdgFilterHandler.hpp.
use ngx_cpp_dev.Base.{
  ℕ, zero, suc, ◌<◌, ◌≡◌, refl, inl, inr, Option, List, Bool-cases, arith, length, All,
}
use ngx_cpp_dev.Base.Int.{ℤ}
use ngx_cpp_dev.Base.Run.{Cmd}
use ngx_cpp_dev.Nginx.{Ptr, TableElt}
use ngx_cpp_dev.NgxList.{NgxList}
use ngx_cpp_dev.Buf.{is_last}
use ngx_cpp_dev.Memory.{Memory}
use ngx_cpp_dev.Memory.Chains.{Cell, Holds, end, node, not_null, load_link-ok, load_buf-ok}
use ngx_cpp_dev.Chain.{increment}
use ngx_cpp_dev.Filter
use ngx_cpp_dev.Filter.{Request, Given, NdgFilterConf, find_last_buf}
use ngx_cpp_dev.LegacyFooter.{NdgFooterConf, do_header_filter, header_filter, find_last}

-- The configuration of http/filter with the same values.
abbrev pub as_filter_conf : NdgFooterConf → NdgFilterConf
as_filter_conf cf = record { headers = cf.headers; footer = cf.footer }

-- Every buffer that is the last one in its chain also ends the response.
abbrev pub EndsTogether : List Cell → Type 0
EndsTogether = All (λ c. is_last c.buf ≡ c.buf.last_buf)

module _ (ngx_list_push : TableElt → NgxList TableElt → Option (NgxList TableElt)) where
  -- The header filters of the two modules do the same to every request, whatever filter is next.
  pub header_filter-same :
      (next : Cmd Request ℤ) (g : Given) (cf : NdgFooterConf) (s : Request)
      → header_filter ngx_list_push next g cf s
        ≡ Filter.header_filter ngx_list_push next g (as_filter_conf cf) s
  unfolding header_filter do_header_filter Filter.header_filter Filter.do_header_filter
  header_filter-same next g cf s = refl

-- The two loops find the same node of a chain in which no buffer is last in the chain without being
-- the end of the response. The fuel is more than the chain's length.
pub find_last-same :
    (k : ℕ) {m : Memory} {p : Ptr} {cs : List Cell}
    → Holds m p cs
    → EndsTogether cs
    → length cs < k
    → find_last k p m ≡ find_last_buf k p m
unfolding find_last find_last_buf increment
find_last-same zero h same fuel = absurd (omega arith)
find_last-same (suc k) end same fuel = refl
find_last-same (suc k) (node {p} {q} {v} n rest) (here, same) fuel =
    let ih = find_last-same k rest same (omega arith) in
    elim (Bool-cases v.last_buf) [
      | inl last ↦ rw (not_null n, load_link-ok n, load_buf-ok n, here, last) refl
      | inr more ↦
          rw (not_null n, load_link-ok n, load_buf-ok n, here, more) (rw (load_link-ok n) ih)
    ]
