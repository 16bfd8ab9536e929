-- ===== src/Tests/Buffers.antt =====
-- The theorems on ngxpp/NgxBuf.hpp, on a buffer of eight bytes of which three are filled.
use ngx_cpp_dev.Base.{◌≡◌, refl, arith}
use ngx_cpp_dev.Buf.{IsValid}
use ngx_cpp_dev.Buf.Bounds.{move, consumes, move-IsValid}
use ngx_cpp_dev.Tests.Data.{plain, first_buf}

first_buf-IsValid : IsValid first_buf
first_buf-IsValid = record {
  in_memory = refl;
  start-le-pos = omega arith;
  pos-le-last = omega arith;
  last-le-end = omega arith;
  end-lt-limit = omega arith;
}

move-IsValid_example :
    IsValid (move plain (consumes 2) first_buf)
    × ((move plain (consumes 2) first_buf).start_ptr ≡ 1000)
    × ((move plain (consumes 2) first_buf).end_ptr ≡ 1008)
move-IsValid_example = move-IsValid plain (consumes 2) first_buf first_buf-IsValid tt
