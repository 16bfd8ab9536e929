-- ===== src/Buf.antt =====
-- ngxpp/NgxBuf.hpp. A method is a function on the `ngx_buf_t` that it wraps; addresses are numbers
-- below `2 ^ 64`, and the cast of a pointer difference to `size_t` wraps.
pub mod Bounds
pub mod Cursor
use ngx_cpp_dev.Base.{
  ℕ, ◌+◌, ◌-◌, ◌%◌, ◌^◌, ◌≤◌, ◌<◌, ◌≡◌, Bool, true, false, ◌||◌, ◌==◌, ltb, if◌then◌else◌,
}
use ngx_cpp_dev.Nginx.{Ptr, NgxStr, Buf, BufSize}

-- `static_cast<std::size_t>(b - a)`
abbrev pub ptr_diff : Ptr → Ptr → ℕ
ptr_diff b a = (b + 2 ^ 64 - a) % 2 ^ 64

-- `range(u_char*, u_char*)`
unfoldable pub set_range : Ptr → Ptr → Buf → Buf
set_range a b buf = record buf { pos_ptr = a; last_ptr = b; memory = true }

-- `boundary(u_char*, u_char*)`
unfoldable pub set_boundary : Ptr → Ptr → Buf → Buf
set_boundary a b buf = record buf { start_ptr = a; end_ptr = b }

-- `range() const`
unfoldable pub range : Buf → NgxStr
range buf = record { len = ptr_diff buf.last_ptr buf.pos_ptr; data_ptr = buf.pos_ptr }

-- `boundary() const`
unfoldable pub boundary : Buf → NgxStr
boundary buf = record { len = ptr_diff buf.end_ptr buf.start_ptr; data_ptr = buf.start_ptr }

-- `range(ngx_str_t*)`; a string lies in memory, so that its end does not wrap.
unfoldable pub range_str : NgxStr → Buf → Buf
unfolding set_range set_boundary
range_str s buf =
    set_boundary s.data_ptr (s.data_ptr + s.len) (set_range s.data_ptr (s.data_ptr + s.len) buf)

-- `printf(args...)`; `ngx_slprintf` is nginx's, with its arguments but the bounds already given.
unfoldable pub printf : (ngx_slprintf : Ptr → Ptr → Ptr) → Buf → Buf
printf ngx_slprintf buf = record buf { last_ptr = ngx_slprintf buf.pos_ptr buf.end_ptr }

-- `copy(src, n)`; `ngx_copy` is nginx's and returns the end of what it wrote.
unfoldable pub copy : (ngx_copy : Ptr → Ptr → ℕ → Ptr) → Ptr → ℕ → Buf → Buf
copy ngx_copy src n buf = record buf { last_ptr = ngx_copy buf.pos_ptr src n }

unfoldable pub clear : Buf → Buf
clear buf = record buf { pos_ptr = buf.last_ptr }

unfoldable pub reset : Buf → Buf
reset buf = record buf { pos_ptr = buf.start_ptr; last_ptr = buf.start_ptr }

unfoldable pub empty : Buf → Bool
empty buf = buf.pos_ptr == buf.last_ptr

unfoldable pub full : Buf → Bool
full buf = buf.pos_ptr == buf.end_ptr

-- `consume(n)`; `size()` is the macro `ngx_buf_size`.
unfoldable pub consume : BufSize → ℕ → Buf → Buf
consume api n buf =
    let n' = if ltb (api.size buf) n then api.size buf else n in
    record buf { pos_ptr = (buf.pos_ptr + n') % 2 ^ 64 }

unfoldable pub produce : ℕ → Buf → Buf
produce n buf =
    let last' = (buf.last_ptr + n) % 2 ^ 64 in
    record buf { last_ptr = if ltb buf.end_ptr last' then buf.end_ptr else last' }

-- `last()`
unfoldable pub is_last : Buf → Bool
is_last buf = buf.last_buf || buf.last_in_chain

unfoldable pub finish : Bool → Buf → Buf
finish flag buf = record buf { last_buf = flag; last_in_chain = flag }

-- A buffer in memory whose pointers stand in order.
pub record IsValid (b : Buf) : Type 0 where
  pub in_memory : (b.memory || b.temporary) ≡ true
  pub start-le-pos : b.start_ptr ≤ b.pos_ptr
  pub pos-le-last : b.pos_ptr ≤ b.last_ptr
  pub last-le-end : b.last_ptr ≤ b.end_ptr
  pub end-lt-limit : b.end_ptr < 2 ^ 64
