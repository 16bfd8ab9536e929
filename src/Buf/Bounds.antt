-- ===== src/Buf/Bounds.antt =====
-- The pointers of an `ngx_buf_t` stay in order under the methods of ngxpp/NgxBuf.hpp.
use ngx_cpp_dev.Base.{ℕ, ◌+◌, ◌^◌, ◌<◌, ◌≡◌, Bool, arith}
use ngx_cpp_dev.Nginx.{Buf, BufSize}
use ngx_cpp_dev.Buf.{IsValid, clear, reset, consume, produce, finish}

-- The methods that move a buffer's cursors.
pub data Move : Type 0 where
  clears resets : Move
  consumes produces : ℕ → Move
  finishes : Bool → Move

unfoldable pub move : BufSize → Move → Buf → Buf
unfolding clear reset consume produce finish
move api clears b = clear b
move api resets b = reset b
move api (consumes n) b = consume api n b
move api (produces n) b = produce n b
move api (finishes f) b = finish f b

-- What a caller of `produce` must see to: the addresses do not wrap.
abbrev pub Fits : Move → Buf → Type 0
Fits (produces n) b = b.last_ptr + n < 2 ^ 64
Fits clears b = Unit {0}
Fits resets b = Unit {0}
Fits (consumes n) b = Unit {0}
Fits (finishes f) b = Unit {0}

-- `clear`, `reset`, `consume`, `produce` and `finish` keep the pointers of a valid buffer in order
-- and the boundary where it was; the bytes that `produce` adds do not wrap the address.
pub move-IsValid :
    (api : BufSize) (m : Move) (b : Buf)
    → IsValid b
    → Fits m b
    → IsValid (move api m b)
      × ((move api m b).start_ptr ≡ b.start_ptr)
      × ((move api m b).end_ptr ≡ b.end_ptr)
unfolding move
move-IsValid api clears b v f = ground arith
move-IsValid api resets b v f = ground arith
move-IsValid api (consumes n) b v f = ground (arith, api.size_in_memory b)
move-IsValid api (produces n) b v f = ground arith
move-IsValid api (finishes x) b v f = ground arith
