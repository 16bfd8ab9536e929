-- ===== src/Tests/Lengths.antt =====
-- The theorem on `buf(r)` of http/test/NdgTestHandler.hpp, with its chain at the node 800.
use ngx_cpp_dev.Base.{◌+◌, ◌<◌, ◌≡◌, refl, Bool, true, false, [], ◌∷◌, map, arith}
use ngx_cpp_dev.Base.Int.{pos}
use ngx_cpp_dev.Base.Run.{Run, ok}
use ngx_cpp_dev.Nginx.{Ptr, null, Buf}
use ngx_cpp_dev.Memory.{Memory, update}
use ngx_cpp_dev.Memory.Chains.{Cell, Holds, node, end}
use ngx_cpp_dev.HttpTest.Buffers.{five, buf}
use ngx_cpp_dev.HttpTest.Buffers.Filled.{filled, CreatesBufs, IsFresh, buf-Filled}
use ngx_cpp_dev.Tests.Data.{plain, memory}

-- An empty buffer of ten bytes at `p`.
abbrev ten_bytes : Ptr → Buf
ten_bytes p = record {
  pos_ptr = p;
  last_ptr = p;
  start_ptr = p;
  end_ptr = p + 10;
  memory = false;
  temporary = true;
  last_buf = false;
  last_in_chain = false;
  file_pos = 0;
  file_last = 0;
}

abbrev is_temporary : Buf → Bool
is_temporary v = v.temporary

abbrev new_cell : Ptr → Cell
new_cell p = record { node_at = p; buf_at = p + 1; buf = ten_bytes (p + 10) }

abbrev create_bufs : Memory → Run Memory Ptr
create_bufs m = ok 110 (record {
  links =
      update (update m.links 110 (record { buf = 111; next = 150 })) 150
        (record { buf = 151; next = null });
  bufs = update (update m.bufs 111 (ten_bytes 120)) 151 (ten_bytes 160);
})

create_bufs-CreatesBufs : CreatesBufs create_bufs 110 (new_cell 110 ∷ new_cell 150 ∷ []) 800 801
create_bufs-CreatesBufs m = (
  _,
  refl,
  node (record { node_ne_null = omega arith; buf_ne_null = omega arith; link = refl; buf = refl })
      (node
        (record { node_ne_null = omega arith; buf_ne_null = omega arith; link = refl; buf = refl })
        end),
  refl,
  refl,
)

ten_bytes-IsFresh : (p : Ptr) → p < 1000 → IsFresh (ten_bytes p)
ten_bytes-IsFresh p small = (refl, refl, refl, refl, omega arith)

buf-Filled_example :
    (m : Memory) × (buf plain is_temporary is_temporary create_bufs 4 801
        (ten_bytes 810)
        800
        700
        (record { container = memory; out = [] })
      ≡ ok tt (record { container = m; out = pos 5 ∷ pos 15 ∷ [] }))
    × Holds m 800 (
        record { node_at = 800; buf_at = 801; buf = five (ten_bytes 810) }
        ∷ map filled (new_cell 110 ∷ new_cell 150 ∷ []))
buf-Filled_example =
    buf-Filled plain is_temporary is_temporary create_bufs 4 801 (ten_bytes 810) 800 700 110
      (new_cell 110 ∷ new_cell 150 ∷ []) (record { container = memory; out = [] }) (omega arith)
      (omega arith) (omega arith) (ten_bytes-IsFresh 810 (omega arith)) refl refl
      create_bufs-CreatesBufs refl (refl, (refl, (refl, tt)))
      (ten_bytes-IsFresh 120 (omega arith), (ten_bytes-IsFresh 160 (omega arith), tt)) refl
      (omega arith)
