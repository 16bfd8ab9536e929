-- ===== src/NgxString.antt =====
-- ngxpp/NgxString.hpp, of which the handlers ask whether a string is empty, and the type of lengths.
pub mod Bytes
use ngx_cpp_dev.Base.{ℕ, ◌-◌, ◌%◌, ◌^◌, Bool, ◌||◌, ltb, if◌then◌else◌}
use ngx_cpp_dev.Base.Int.{ℤ, pos, negsuc}
use ngx_cpp_dev.Nginx.{is_null, NgxStr}

-- `NgxString::empty()`
abbrev pub str_empty : NgxStr → Bool
str_empty s = is_null s.data_ptr || is_null s.len

-- A number as `off_t`, which has 64 bits and a sign.
unfoldable pub off_t_of : ℕ → ℤ
off_t_of n = let r = n % 2 ^ 64 in if ltb r (2 ^ 63) then pos r else negsuc (2 ^ 64 - 1 - r)
