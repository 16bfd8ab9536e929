-- ===== src/HttpTest/Buffers.antt =====
-- `buf(r)` of http/test/NdgTestHandler.hpp, with the lengths that it prints; the bytes are left out.
pub mod Filled
use ngx_cpp_dev.Base.{ℕ, ◌+◌, ◌%◌, ◌^◌, ◌==◌, ◌&&◌, Bool, if◌then◌else◌}
use ngx_cpp_dev.Base.Int.{pos}
use ngx_cpp_dev.Base.Run.{Cmd, ◌>>=◌, ◌>>◌, pure}
use ngx_cpp_dev.Nginx.{Ptr, Buf, BufSize}
use ngx_cpp_dev.Memory.{Memory, load_link, load_buf, modify_buf}
use ngx_cpp_dev.Buf.{range, boundary}
use ngx_cpp_dev.Pool.{temp_buffer, chain}
use ngx_cpp_dev.Pool.Objects.{chain_of_bufs}
use ngx_cpp_dev.Chain.{node_last, link, set, size, visit}
use ngx_cpp_dev.HttpTest.Containers.{Trial, on_container, print, assert}

-- An assertion on the buffer at `b`.
abbrev pub check : (Buf → Bool) → Ptr → Cmd (Trial Memory) (Unit {0})
check f b = do v ← on_container (load_buf b); assert (f v)

-- `b->last = b->pos + 5`, and the same by `buf->last += 5`
abbrev pub five : Buf → Buf
five v = record v { last_ptr = (v.pos_ptr + 5) % 2 ^ 64 }

abbrev pub five_more : Buf → Buf
five_more v = record v { last_ptr = (v.last_ptr + 5) % 2 ^ 64 }

-- The buffer of ten bytes: `b` is what `ngx_create_temp_buf` returns, with `created` in it, and the
-- tests are nginx's macros.
unfoldable pub new_buf :
    (ngx_buf_in_memory ngx_buf_in_memory_only : Buf → Bool)
    → (b : Ptr) → (created : Buf) → Cmd (Trial Memory) Ptr
unfolding temp_buffer range boundary
new_buf ngx_buf_in_memory ngx_buf_in_memory_only b created = do
  buf ← on_container (temp_buffer b created)
  check (λ v. ngx_buf_in_memory v && ngx_buf_in_memory_only v) buf
  check (λ v. (range v).len == 0) buf
  check (λ v. (boundary v).len == 10) buf
  on_container (modify_buf buf five_more)
  check (λ v. (range v).len == 5) buf
  pure buf

-- The chain of that buffer and of two more: `p` is what `ngx_alloc_chain_link` returns.
unfoldable pub new_chain :
    (ngx_create_chain_of_bufs : Cmd Memory Ptr)
    → (p uninitialised : Ptr) → (buf : Ptr) → Cmd (Trial Memory) Ptr
unfolding chain chain_of_bufs node_last set link
new_chain ngx_create_chain_of_bufs p uninitialised buf = do
  ch ← on_container (chain p uninitialised)
  last ← on_container (node_last ch)
  assert last
  on_container (set ch buf)
  made ← on_container ngx_create_chain_of_bufs
  ch2 ← on_container (chain_of_bufs made)
  on_container (link ch ch2)
  pure ch

-- The loop that fills every buffer. A range-for over a chain compares with null, as `visit` does.
unfoldable pub fill : ℕ → Ptr → Cmd Memory (Unit {0})
unfolding visit
fill fuel ch = visit fuel (λ p. load_link p >>= λ x. modify_buf x.buf five) ch

unfoldable pub buf :
    BufSize
    → (ngx_buf_in_memory ngx_buf_in_memory_only : Buf → Bool)
    → (ngx_create_chain_of_bufs : Cmd Memory Ptr) → (fuel : ℕ) → (b : Ptr) → (created : Buf)
    → (p uninitialised : Ptr) → Cmd (Trial Memory) (Unit {0})
unfolding new_buf new_chain fill size
buf api ngx_buf_in_memory ngx_buf_in_memory_only ngx_create_chain_of_bufs fuel b created p
      uninitialised =
    do
      v ← new_buf ngx_buf_in_memory ngx_buf_in_memory_only b created
      ch ← new_chain ngx_create_chain_of_bufs p uninitialised v
      n ← on_container (size api fuel ch)
      print (pos n)
      on_container (fill fuel ch)
      m ← on_container (size api fuel ch)
      print (pos m)
