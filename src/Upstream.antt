-- ===== src/Upstream.antt =====
-- ngxpp/NgxUpstream.hpp and legacy/upstream/NdgUpstreamHandler.hpp: the request that is sent to the
-- server behind, and the two bytes that head its answer. `bytes` is what memory holds, and the
-- upstream is the part of `ngx_http_upstream_t` that the callbacks read and write.
pub mod Answer
pub mod Request
pub mod Start
use ngx_cpp_dev.Base.{ℕ, ◌+◌, ◌*◌, ltb, leb, if◌then◌else◌}
use ngx_cpp_dev.Base.Int.{ℤ, pos}
use ngx_cpp_dev.Base.Run.{
  lifted, Cmd, ok, raised, fault, out_of_fuel, ◌>>=◌, ◌>>◌, pure, modify, get,
}
use ngx_cpp_dev.Nginx.{Ptr, is_null, NgxStr, Buf, BufSize, ngx_ok, ngx_again}
use ngx_cpp_dev.Memory.{Memory, set_buf, modify_buf}
use ngx_cpp_dev.Buf.{range_str, consume}
use ngx_cpp_dev.Pool.{buffer, chain}
use ngx_cpp_dev.Chain.{append}

pub record Upstream : Type 0 where
  pub memory : Memory
  pub request_bufs : Ptr
  pub buffer : Buf
  pub content_length_n : ℤ
  pub status_n : ℕ
  pub status : ℕ

-- The addresses that nginx's allocator gives: a buffer, and a chain link with what its memory held.
pub record Given : Type 0 where
  pub buf : Ptr
  pub link : Ptr
  pub uninitialised : Ptr

abbrev pub in_memory : {A : Type 0} → Cmd Memory A → Cmd Upstream A
in_memory c u = lifted (λ x. record u { memory = x }) (c u.memory)

-- `NgxUpstream::request(bufs)`, with the fuel of `append`.
unfoldable pub request : ℕ → Ptr → Cmd Upstream (Unit {0})
request k bufs = do
  u ← get
  if is_null u.request_bufs
      then modify (λ u. record u { request_bufs = bufs })
      else in_memory (append k u.request_bufs bufs)

-- The message: four characters of the arguments, or the literal "xxxx", which lies at `literal`.
unfoldable pub message : (literal : Ptr) → (args : NgxStr) → NgxStr
message literal args =
    if leb 4 args.len then record args { len = 4 } else record { len = 4; data_ptr = literal }

-- A node of its own for the message.
unfoldable pub message_node : Given → NgxStr → Cmd Memory Ptr
message_node g msg = do
  b ← buffer g.buf
  modify_buf b (range_str msg)
  ch ← chain g.link g.uninitialised
  set_buf ch b
  pure ch

-- `create_request`
unfoldable pub create_request : ℕ → Given → (literal : Ptr) → (args : NgxStr) → Cmd Upstream ℤ
create_request k g literal args = do
  ch ← in_memory (message_node g (message literal args))
  request k ch
  pure ngx_ok

-- `process_header`
unfoldable pub process_header : BufSize → (bytes : Ptr → ℕ) → Cmd Upstream ℤ
process_header api bytes u =
    if ltb (api.size u.buffer) 2
    then ok ngx_again u
    else ok ngx_ok (record u {
      content_length_n = pos (bytes u.buffer.pos_ptr * 256 + bytes (u.buffer.pos_ptr + 1));
      status_n = 200;
      status = 200;
      buffer = consume api 2 u.buffer;
    })
