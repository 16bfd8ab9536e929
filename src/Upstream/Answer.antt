-- ===== src/Upstream/Answer.antt =====
-- What `process_header` of legacy/upstream/NdgUpstreamHandler.hpp reads.
use ngx_cpp_dev.Base.{
  ◌∙◌, ℕ, ◌+◌, ◌-◌, ◌*◌, ◌/◌, ◌%◌, ◌<◌, ◌≤◌, ◌≡◌, refl, ◌⊎◌, inl, inr, arith, Bool-cases, ltb,
}
use ngx_cpp_dev.Base.Int.{pos}
use ngx_cpp_dev.Base.Run.{ok}
use ngx_cpp_dev.Nginx.{Ptr, BufSize, ngx_ok, ngx_again}
use ngx_cpp_dev.Buf.{IsValid, consume}
use ngx_cpp_dev.Buf.Cursor.{consume-size}
use ngx_cpp_dev.Upstream.{Upstream, process_header}

-- The two bytes at an address are the number `n`, the high byte first.
abbrev pub Encodes : (Ptr → ℕ) → Ptr → ℕ → Type 0
Encodes bytes p n = (bytes p ≡ n / 256) × (bytes (p + 1) ≡ n % 256)

module _ (api : BufSize) (bytes : Ptr → ℕ) where
  -- With fewer than two bytes the callback asks for more and changes nothing; else it reads the
  -- number that the first two bytes of the valid buffer encode as the content length, sets both
  -- states to 200, and takes just those two bytes from the buffer.
  pub process_header-Encodes :
      (u : Upstream) (n : ℕ)
      → IsValid u.buffer
      → Encodes bytes u.buffer.pos_ptr n
      → ((api.size u.buffer < 2) × (process_header api bytes u ≡ ok ngx_again u))
        ⊎ ((2 ≤ api.size u.buffer)
            × (v : Upstream) × (process_header api bytes u ≡ ok ngx_ok v)
            × (v.content_length_n ≡ pos n)
            × (v.status_n ≡ 200)
            × (v.status ≡ 200)
            × (v.buffer.pos_ptr ≡ u.buffer.pos_ptr + 2)
            × (v.buffer.last_ptr ≡ u.buffer.last_ptr)
            × (api.size v.buffer ≡ api.size u.buffer - 2))
  unfolding process_header
  process_header-Encodes u n valid (high, low) = elim (Bool-cases (ltb (api.size u.buffer) 2)) [
    | inl short ↦ inl (ground arith, ground arith)
    | inr enough ↦
        let (left, front, back) = consume-size api 2 u.buffer valid in
        let two : 2 ≤ api.size u.buffer = ground arith in
        let number : bytes u.buffer.pos_ptr * 256 + bytes (u.buffer.pos_ptr + 1) ≡ n =
          rw (high, low) (omega arith) in
        inr (
          two,
          record u {
            content_length_n = pos n;
            status_n = 200;
            status = 200;
            buffer = consume api 2 u.buffer;
          },
          rw (enough, number) refl,
          refl,
          refl,
          refl,
          front ∙ omega arith,
          back,
          left,
        )
  ]
