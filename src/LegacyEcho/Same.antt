-- ===== src/LegacyEcho/Same.antt =====
-- legacy/echo/NdgEchoHandler.hpp answers as http/echo/NdgEchoHandler.hpp does.
use ngx_cpp_dev.Base.{ℕ, ◌≡◌, refl, ap, inl, inr, Bool-cases}
use ngx_cpp_dev.Base.Int.{ℤ, eqb_ℤ}
use ngx_cpp_dev.Base.Run.{NgxException, Cmd, ok, caught, and_then-congr, ◌>>◌, pure}
use ngx_cpp_dev.Nginx.{Ptr, NgxStr, ngx_ok}
use ngx_cpp_dev.Response.{Reply, Slot, method, discard, set_length, set_status, send_str}
use ngx_cpp_dev.Echo.{handler, answer, ngx_http_get, send_args}
use ngx_cpp_dev.Echo.Length.{SendsNoByte}
use ngx_cpp_dev.LegacyEcho.{process, answer as legacy_answer}
use ngx_cpp_dev.Exception.{require_rc, require, raise}

module _ (ngx_http_send_header : Cmd Reply ℤ) (ngx_http_output_filter : Ptr → Cmd Reply ℤ)
    (ngx_http_send_flush ngx_http_send_last : Cmd Reply ℤ) (for_args for_comma for_msg : Slot)
    (flushes : SendsNoByte ngx_http_send_flush) where
  flush_last : (t : Reply) → (ngx_http_send_flush >> ngx_http_send_last) t ≡ ngx_http_send_last t
  flush_last t = let (rc, e) = flushes t in rw e refl

  answer-same :
      (msg args : NgxStr) (r : Reply)
      → legacy_answer ngx_http_send_header ngx_http_output_filter ngx_http_send_flush
          ngx_http_send_last for_args for_comma for_msg msg args r
        ≡ answer ngx_http_send_header ngx_http_output_filter ngx_http_send_last for_args for_comma
            for_msg msg args r
  unfolding legacy_answer answer set_length set_status
  answer-same msg args r =
      and_then-congr
        (send_args ngx_http_send_header ngx_http_output_filter ngx_http_send_last for_args for_comma
          for_msg args _)
        (λ u t.
          and_then-congr (send_str ngx_http_send_header ngx_http_output_filter for_msg msg t)
            (λ rc v. flush_last v))

  -- To every request the handler of the older module does the same as the one of http/echo, with the
  -- string that its message evaluates to as the message. The evaluation succeeds and changes nothing,
  -- and the flush, which nginx does, neither.
  pub process-same :
      (own : ℕ) (discarded : ℤ) (var : Cmd Reply NgxStr) (msg args : NgxStr) (r : Reply)
      → ((t : Reply) → var t ≡ ok msg t)
      → process ngx_http_send_header ngx_http_output_filter ngx_http_send_flush ngx_http_send_last
          for_args for_comma for_msg own discarded var args r
        ≡ handler ngx_http_send_header ngx_http_output_filter ngx_http_send_last for_args for_comma
            for_msg own discarded msg args r
  unfolding process handler discard require_rc require raise
  process-same own discarded var msg args r reads = elim (Bool-cases (method own ngx_http_get)) [
    | inl get ↦ elim (Bool-cases (eqb_ℤ discarded ngx_ok)) [
      | inl good ↦
          rw (get, good, reads r)
            (ap (caught (λ (e : NgxException). pure e.code)) (answer-same msg args r))
      | inr bad ↦ rw (get, bad) refl
    ]
    | inr other ↦ rw other refl
  ]
