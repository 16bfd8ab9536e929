-- ===== src/Response/Sending.antt =====
-- What a `send` of ngxpp/NgxRequest.hpp hands to nginx.
use ngx_cpp_dev.Base.{
  if◌then◌else◌, ℕ, not, false, ◌∙◌, ◌+◌, ◌≡◌, ◌≢◌, Bool, true, ◌||◌, ◌⊎◌, inl, inr, refl, [], ◌∷◌,
  arith, Bool-cases,
}
use ngx_cpp_dev.Base.Int.{ℤ, eqb_ℤ, ltb_ℤ}
use ngx_cpp_dev.Base.Run.{Run, Cmd, ok, raised}
use ngx_cpp_dev.Nginx.{is_null, Ptr, null, NgxStr, BufSize, zero_buf, ngx_ok, ngx_error}
use ngx_cpp_dev.Exception.{exception_of, raise, fail, require_ptr}
use ngx_cpp_dev.Memory.{Memory, update, set_buf, modify_buf, load_buf, load_link}
use ngx_cpp_dev.Memory.Chains.{Cell, Holds, end, node}
use ngx_cpp_dev.Buf.{range_str}
use ngx_cpp_dev.Pool.{buffer, chain}
use ngx_cpp_dev.Response.{Reply, Slot, send_header, send_chain, send_buf, send_str}

-- `ngx_http_send_header` marks the header as sent, and `ngx_http_output_filter` takes all bytes of a
-- chain of one node that memory holds. `rc` is what the first returns for the request; what the second
-- returns is open.
abbrev pub SendsHeader : Cmd Reply ℤ → ℤ → Type 0
SendsHeader send rc = (r : Reply) → send r ≡ ok rc (record r { header_sent = true })

abbrev pub TakesChain : BufSize → (Ptr → Cmd Reply ℤ) → Type 0
TakesChain api filter =
    (p : Ptr) (c : Cell) (r : Reply)
    → Holds r.memory p (c ∷ [])
    → (rc : ℤ) × (filter p r ≡ ok rc (record r { passed = r.passed + api.size c.buf }))

-- A slot of which no address is null.
pub record Available (g : Slot) : Type 0 where
  pub buf_ne_null : g.buf ≢ null
  pub link_ne_null : g.link ≢ null
  pub copy_ne_null : g.copy ≢ null

abbrev pub bad_rc : ℤ → Bool
bad_rc rc = eqb_ℤ rc ngx_error || ltb_ℤ ngx_ok rc

-- The header is out, or goes out since nginx does not refuse it.
abbrev pub goes_out : ℤ → Reply → Bool
goes_out rc r = r.header_sent || not (bad_rc rc)

-- The first send sets the status, if there is none.
abbrev pub with_status : Reply → Reply
with_status r = record r { status = if is_null r.status then 200 else r.status }

module _ (api : BufSize) (ngx_http_send_header : Cmd Reply ℤ)
    (ngx_http_output_filter : Ptr → Cmd Reply ℤ) (code : ℤ) where
  -- The string's buffer in a node of its own.
  abbrev pub built : Slot → NgxStr → Memory → Memory
  built g s m = record {
    links =
        update (update m.links g.link (record { buf = g.uninitialised; next = null })) g.link
          (record { buf = g.buf; next = null });
    bufs = update (update m.bufs g.buf zero_buf) g.buf (range_str s zero_buf);
  }

  built-size : (s : NgxStr) → api.size (range_str s zero_buf) ≡ s.len
  unfolding range_str
  built-size s = api.size_in_memory (range_str s zero_buf) refl ∙ omega arith

  built-Holds :
      (g : Slot) (s : NgxStr) (m : Memory)
      → Available g
      → Holds
          (built g s m)
          g.link
          (record { node_at = g.link; buf_at = g.buf; buf = range_str s zero_buf } ∷ [])
  built-Holds g s m a = node (ground arith) end

  send_str-send_chain :
      (g : Slot) (s : NgxStr) (r : Reply)
      → Available g
      → send_str ngx_http_send_header ngx_http_output_filter g s r
        ≡ send_chain ngx_http_send_header ngx_http_output_filter g.link
            (record r { memory = built g s r.memory })
  unfolding send_str send_buf buffer chain require_ptr load_buf load_link set_buf modify_buf
  send_str-send_chain g s r a = ground arith

  pub send_header-cases :
      (r : Reply)
      → SendsHeader ngx_http_send_header code
      → r.status ≢ 0
      → ((goes_out code r ≡ true)
          × (rc : ℤ) × (send_header ngx_http_send_header ngx_http_output_filter r
              ≡ ok rc (record r { header_sent = true })))
        ⊎ ((goes_out code r ≡ false)
            × (send_header ngx_http_send_header ngx_http_output_filter r
                ≡ raised (exception_of code) (record r { header_sent = true })))
  unfolding send_header fail raise
  send_header-cases r sends set = elim (Bool-cases r.header_sent) [
    | inl sent ↦ inl (ground arith, ngx_ok, ground arith)
    | inr first ↦
        let e = sends r in
        elim (Bool-cases (bad_rc code)) [
          | inl bad ↦ inr (ground arith, ground arith)
          | inr good ↦ inl (ground arith, code, ground arith)
        ]
  ]

  header_out :
      (r : Reply)
      → r.header_sent ≡ true
      → send_header ngx_http_send_header ngx_http_output_filter r
        ≡ ok ngx_ok (record r { header_sent = true })
  unfolding send_header
  header_out r sent = ground arith

  pub send_chain-with_status :
      (p : Ptr) (r : Reply)
      → r.header_sent ≡ false
      → send_chain ngx_http_send_header ngx_http_output_filter p r
        ≡ send_chain ngx_http_send_header ngx_http_output_filter p (with_status r)
  unfolding send_chain send_header
  send_chain-with_status p r unsent = elim (Bool-cases (is_null r.status)) [
    | inl bare ↦ rw (unsent, bare) refl
    | inr set ↦ rw (unsent, set, set) refl
  ]

  -- The header was refused, and no byte of the body has gone to nginx.
  abbrev pub Refused : Reply → Run Reply ℤ → Type 0
  Refused r run =
      (m : Memory) × (run
        ≡ raised (exception_of code) (record r { memory = m; header_sent = true }))

  -- nginx has taken `n` more bytes.
  abbrev pub Passed : Reply → ℕ → Run Reply ℤ → Type 0
  Passed r n run =
      (rc : ℤ) × (m : Memory) × (run
        ≡ ok rc (record r { memory = m; header_sent = true; passed = r.passed + n }))

  module _ (sends : SendsHeader ngx_http_send_header code)
      (takes : TakesChain api ngx_http_output_filter) where
    pub send_chain-Passed :
        (p : Ptr) (c : Cell) (r : Reply) {rc : ℤ}
        → Holds r.memory p (c ∷ [])
        → p ≢ null
        → r.header_only ≡ false
        → send_header ngx_http_send_header ngx_http_output_filter r
          ≡ ok rc (record r { header_sent = true })
        → Passed r (api.size c.buf) (send_chain ngx_http_send_header ngx_http_output_filter p r)
    unfolding send_chain
    send_chain-Passed p c r h ne only e =
        let (rc, f) = takes p c (record r { header_sent = true }) h in (rc, r.memory, ground arith)

    pub send_chain-Refused :
        (p : Ptr) (r : Reply)
        → send_header ngx_http_send_header ngx_http_output_filter r
          ≡ raised (exception_of code) (record r { header_sent = true })
        → Refused r (send_chain ngx_http_send_header ngx_http_output_filter p r)
    unfolding send_chain
    send_chain-Refused p r e = (r.memory, rw e refl)

    -- A string is sent: nginx takes its bytes, or refuses the header first.
    pub send_str-Passed :
        (g : Slot) (s : NgxStr) (r : Reply)
        → Available g
        → r.header_only ≡ false
        → r.status ≢ 0
        → ((goes_out code r ≡ true)
            × Passed r s.len (send_str ngx_http_send_header ngx_http_output_filter g s r))
          ⊎ ((goes_out code r ≡ false)
              × Refused r (send_str ngx_http_send_header ngx_http_output_filter g s r))
    send_str-Passed g s r a only set =
        let t : Reply = record r { memory = built g s r.memory } in
        elim (send_header-cases t sends set) [
          | inl (out, rc, e) ↦
              let (rc', m, f) =
                send_chain-Passed g.link
                  (record { node_at = g.link; buf_at = g.buf; buf = range_str s zero_buf }) t
                  (built-Holds g s r.memory a) a.link_ne_null only e in
              inl (out, (rc', m, rw (send_str-send_chain g s r a, f, built-size s) refl))
          | inr (held, e) ↦
              let (m, f) = send_chain-Refused g.link t e in
              inr (held, (m, rw (send_str-send_chain g s r a, f) refl))
        ]

    -- Once the header is out it cannot be refused.
    pub send_str-later :
        (g : Slot) (s : NgxStr) (r : Reply)
        → Available g
        → r.header_only ≡ false
        → r.header_sent ≡ true
        → Passed r s.len (send_str ngx_http_send_header ngx_http_output_filter g s r)
    send_str-later g s r a only sent =
        let t : Reply = record r { memory = built g s r.memory } in
        let (rc', m, f) =
          send_chain-Passed g.link
            (record { node_at = g.link; buf_at = g.buf; buf = range_str s zero_buf }) t
            (built-Holds g s r.memory a) a.link_ne_null only (header_out t sent) in
        (rc', m, rw (send_str-send_chain g s r a, f, built-size s) refl)
