-- ===== src/Buf/Cursor.antt =====
-- What the methods of ngxpp/NgxBuf.hpp read and write: `consume` and `produce` as a queue's ends.
use ngx_cpp_dev.Base.{ℕ, ◌+◌, ◌-◌, ◌^◌, ◌<◌, ◌≡◌, true, arith}
use Prim.Native.Nat.{min}
use ngx_cpp_dev.Nginx.{NgxStr, Buf, BufSize}
use ngx_cpp_dev.Buf.{IsValid, range, boundary, range_str, consume, produce, full, empty}

-- `consume` takes `n` bytes from the front of a valid buffer, or all there are, and leaves the end.
pub consume-size :
    (api : BufSize) (n : ℕ) (b : Buf)
    → IsValid b
    → (api.size (consume api n b) ≡ api.size b - n)
      × ((consume api n b).pos_ptr ≡ b.pos_ptr + min n (api.size b))
      × ((consume api n b).last_ptr ≡ b.last_ptr)
unfolding consume
consume-size api n b v = ground (arith, api.size_in_memory b, api.size_in_memory (consume api n b))

-- `produce` adds `n` bytes at the end of a valid buffer, or as many as there is room for, and
-- leaves the front; the new end does not wrap the address.
pub produce-size :
    (api : BufSize) (n : ℕ) (b : Buf)
    → IsValid b
    → b.last_ptr + n < 2 ^ 64
    → (api.size (produce n b) ≡ api.size b + min n (b.end_ptr - b.last_ptr))
      × ((produce n b).pos_ptr ≡ b.pos_ptr)
unfolding produce
produce-size api n b v fits = ground (arith, api.size_in_memory b, api.size_in_memory (produce n b))

-- The range of a buffer that was set to a string is that string, and so is its boundary, if the
-- string's end is an address.
pub range-range_str :
    (s : NgxStr) (b : Buf)
    → s.data_ptr + s.len < 2 ^ 64
    → (range (range_str s b) ≡ s) × (boundary (range_str s b) ≡ s)
unfolding range boundary range_str
range-range_str s b h = ground arith

-- `full` asks for the front at the end of the boundary: a valid buffer for which it answers yes
-- is empty, so one that holds unread bytes up to its end is never called full.
pub full-empty : (b : Buf) → IsValid b → full b ≡ true → empty b ≡ true
unfolding full empty
full-empty b v h = ground arith
