-- ===== src/Echo/Length.antt =====
-- The answer of http/echo/NdgEchoHandler.hpp is as long as it announces.
use ngx_cpp_dev.Base.{
  sym, ap, ◌∙◌, ℕ, ◌+◌, ◌<◌, ◌^◌, ◌≡◌, true, false, not, ◌⊎◌, inl, inr, refl, arith, Bool-cases,
  if◌then◌else◌,
}
use ngx_cpp_dev.Base.Int.{ℤ, pos, eqb_ℤ}
use ngx_cpp_dev.Base.Run.{NgxException, catch, ◌>>◌, pure, and_then, Run, Cmd, ok, raised}
use ngx_cpp_dev.Nginx.{Ptr, NgxStr, BufSize, ngx_ok, ngx_http_not_allowed}
use ngx_cpp_dev.Exception.{require, require_rc, exception_of, raise, require_ptr}
use ngx_cpp_dev.Memory.{Memory}
use ngx_cpp_dev.NgxString.{str_empty, off_t_of}
use ngx_cpp_dev.Response.{
  Reply, Slot, method, discard, set_length, set_status, dup, send_str, send_text,
}
use ngx_cpp_dev.Response.Sending.{
  SendsHeader, TakesChain, Available, goes_out, Passed, send_str-Passed, send_str-later,
}
use ngx_cpp_dev.Echo.{ngx_http_get, answer_length, send_args, answer, handler}

-- The length without wrapping.
abbrev pub exact_length : (msg args : NgxStr) → ℕ
exact_length msg args = if str_empty args then msg.len else msg.len + (args.len + 1)

announced :
    (msg args : NgxStr)
    → exact_length msg args < 2 ^ 63
    → off_t_of (answer_length msg args) ≡ pos (exact_length msg args)
unfolding off_t_of answer_length
announced msg args small = ground arith

-- `ngx_http_send_special` with the flag `NGX_HTTP_LAST` adds no byte to the body.
abbrev pub SendsNoByte : Cmd Reply ℤ → Type 0
SendsNoByte last = (r : Reply) → (rc : ℤ) × (last r ≡ ok rc r)

module _ (api : BufSize) (ngx_http_send_header : Cmd Reply ℤ)
    (ngx_http_output_filter : Ptr → Cmd Reply ℤ) (ngx_http_send_last : Cmd Reply ℤ)
    (for_args for_comma for_msg : Slot) (own : ℕ) (discarded code : ℤ) (msg args : NgxStr) where
  -- The body that nginx has taken has the length that the response announces.
  abbrev pub Answered : Reply → Run Reply ℤ → Type 0
  Answered r run =
      (rc : ℤ) × (m : Memory) × (run
        ≡ ok rc (record r {
          memory = m;
          header_sent = true;
          status = 200;
          content_length_n = pos (exact_length msg args);
          passed = r.passed + exact_length msg args;
        }))

  -- No byte of the body was sent.
  abbrev pub Unsent : Reply → (Reply → Run Reply ℤ) → Run Reply ℤ → Type 0
  Unsent r outcome run = (t : Reply) × (run ≡ outcome t) × (t.passed ≡ r.passed)

  -- nginx takes the answer if the header is out or is not refused, and else nothing of it.
  abbrev pub Outcome : Reply → (Reply → Run Reply ℤ) → Run Reply ℤ → Type 0
  Outcome r outcome run =
      ((goes_out code r ≡ true) × Answered r run)
      ⊎ ((goes_out code r ≡ false) × Unsent r outcome run)

  -- The answer to a GET request whose body was discarded, and the other outcomes.
  abbrev pub Handled : Reply → Run Reply ℤ → Type 0
  Handled r run =
      if not (method own ngx_http_get)
      then (run ≡ ok ngx_http_not_allowed r)
      else if not (eqb_ℤ discarded ngx_ok)
      then (run ≡ ok discarded r)
      else Outcome r (ok code) run

  run_answer : Cmd Reply ℤ
  run_answer =
      answer ngx_http_send_header ngx_http_output_filter ngx_http_send_last for_args for_comma
        for_msg msg args

  -- The handler's `catch`.
  abbrev caught : Reply → Run Reply ℤ → Run Reply ℤ
  caught r run = catch (λ _. run) (λ (e : NgxException). pure e.code) r

  caught-Answered :
      (r : Reply) (run : Run Reply ℤ)
      → Outcome r (raised (exception_of code)) run
      → Outcome r (ok code) (caught r run)
  caught-Answered r run (inl (out, (rc, m, e))) = inl (out, (rc, m, rw e refl))
  caught-Answered r run (inr (held, (t, e, same))) = inr (held, (t, rw e refl, same))

  module _ (sends : SendsHeader ngx_http_send_header code)
      (takes : TakesChain api ngx_http_output_filter) (ends : SendsNoByte ngx_http_send_last)
      (slot_args : Available for_args) (slot_comma : Available for_comma)
      (slot_msg : Available for_msg) (small : exact_length msg args < 2 ^ 63) (r : Reply)
      (body : r.header_only ≡ false) where
    abbrev started : Reply
    started = record r { content_length_n = pos (exact_length msg args); status = 200 }

    -- The state once the header is out and nginx has taken `n` bytes in all.
    abbrev after : Memory → ℕ → Reply
    after m n = record started { memory = m; header_sent = true; passed = n }

    answer-bare :
        str_empty args ≡ true
        → run_answer r
          ≡ and_then
              (send_str ngx_http_send_header ngx_http_output_filter for_msg msg started)
              (λ _. ngx_http_send_last)
    unfolding run_answer answer set_length set_status send_args
    answer-bare bare = let len = announced msg args small in rw len (rw bare refl)

    answer-given :
        str_empty args ≡ false
        → run_answer r
          ≡ ((send_str ngx_http_send_header ngx_http_output_filter for_args args
                  >> (send_text ngx_http_send_header ngx_http_output_filter for_comma 1
                      >> pure {A = Unit {0}} tt))
                >> (send_str ngx_http_send_header ngx_http_output_filter for_msg msg
                    >> ngx_http_send_last))
              started
    unfolding run_answer answer set_length set_status send_args
    answer-given given = let len = announced msg args small in rw len (rw given refl)

    send_comma :
        (t : Reply)
        → t.header_only ≡ false
        → t.header_sent ≡ true
        → Passed api ngx_http_send_header ngx_http_output_filter code t 1
            (send_text ngx_http_send_header ngx_http_output_filter for_comma 1 t)
    unfolding send_text dup require_ptr
    send_comma t only sent =
        let comma : NgxStr = record { len = 1; data_ptr = for_comma.copy } in
        let (rc, m, e) =
          send_str-later api ngx_http_send_header ngx_http_output_filter code sends takes for_comma
            comma t slot_comma only sent in
        (rc, m, ground (arith, slot_comma.copy_ne_null))

    answer-Answered_bare :
        str_empty args ≡ true → Outcome r (raised (exception_of code)) (run_answer r)
    answer-Answered_bare bare =
        elim (send_str-Passed api ngx_http_send_header ngx_http_output_filter code sends takes
          for_msg msg started slot_msg body (omega arith)) [
            | inl (out, (rc, m, e)) ↦
                let (rc', e') = ends (after m (r.passed + msg.len)) in
                let sum : exact_length msg args ≡ msg.len = rw bare refl in
                inl (
                  out,
                  (
                    rc',
                    m,
                    answer-bare bare
                        ∙ rw (e, e') (ap (λ n. ok rc' (after m (r.passed + n))) (sym sum)),
                  ),
                )
            | inr (held, (m, e)) ↦ inr (
              held,
              (
                record started { memory = m; header_sent = true },
                answer-bare bare ∙ rw e refl,
                refl,
              ),
            )
          ]

    answer-Answered_given :
        str_empty args ≡ false → Outcome r (raised (exception_of code)) (run_answer r)
    answer-Answered_given given =
        elim (send_str-Passed api ngx_http_send_header ngx_http_output_filter code sends takes
          for_args args started slot_args body (omega arith)) [
            | inl (out, (rc, m, e)) ↦
                let (rc', m', e') = send_comma (after m (r.passed + args.len)) body refl in
                let (rc'', m'', e'') =
                  send_str-later api ngx_http_send_header ngx_http_output_filter code sends takes
                    for_msg msg (after m' (r.passed + args.len + 1)) slot_msg body refl in
                let (last, ended) = ends (after m'' (r.passed + args.len + 1 + msg.len)) in
                let exact : exact_length msg args ≡ msg.len + (args.len + 1) = rw given refl in
                let sum : r.passed + args.len + 1 + msg.len ≡ r.passed + exact_length msg args =
                  omega (arith, exact) in
                inl (
                  out,
                  (
                    last,
                    m'',
                    answer-given given
                        ∙ rw (e, e', e'', ended) (ap (λ n. ok last (after m'' n)) sum),
                  ),
                )
            | inr (held, (m, e)) ↦ inr (
              held,
              (
                record started { memory = m; header_sent = true },
                answer-given given ∙ rw e refl,
                refl,
              ),
            )
          ]

    answer-Answered : Outcome r (raised (exception_of code)) (run_answer r)
    answer-Answered = elim (Bool-cases (str_empty args)) [
      | inl bare ↦ answer-Answered_bare bare
      | inr given ↦ answer-Answered_given given
    ]

    handler-answer :
        method own ngx_http_get ≡ true
        → eqb_ℤ discarded ngx_ok ≡ true
        → handler ngx_http_send_header ngx_http_output_filter ngx_http_send_last for_args for_comma
            for_msg own discarded msg args r
          ≡ caught r (run_answer r)
    unfolding handler run_answer discard require_rc require raise
    handler-answer get good = rw (get, good) refl

    -- To a GET request the handler answers with as many bytes as it announces: the message, and
    -- before it the arguments and a comma if there are any. Exactly if the header is not out before and
    -- nginx refuses it, with an error or a code above `NGX_OK`, the handler returns nginx's code
    -- instead and sends no byte of a body. To another method it answers 405, and if the request's body
    -- cannot be discarded it returns nginx's code; both leave the reply alone. The allocator has
    -- memory, a body is wanted, the length is less than `2 ^ 63`, `ngx_http_send_header` marks the
    -- header as sent and returns one code for the request, `ngx_http_output_filter` takes the chain
    -- that it is given, and `ngx_http_send_special` adds no byte.
    pub handler-Handled : Handled r (
        handler ngx_http_send_header ngx_http_output_filter ngx_http_send_last for_args for_comma
          for_msg own discarded msg args r)
    unfolding handler discard require_rc require raise
    handler-Handled = elim (Bool-cases (method own ngx_http_get)) [
      | inr other ↦ rw other refl
      | inl get ↦ elim (Bool-cases (eqb_ℤ discarded ngx_ok)) [
        | inr failed ↦ rw (get, failed) refl
        | inl good ↦
            rw (handler-answer get good, get, good)
              (caught-Answered r (run_answer r) answer-Answered)
      ]
    ]
