-- ===== src/Tests/Chains.antt =====
-- The theorems on ngxpp/NgxChain.hpp, on the chain of the nodes 100 and 200.
use ngx_cpp_dev.Base.{◌≡◌, refl, List, [], ◌∷◌, arith}
use ngx_cpp_dev.Base.Run.{ok}
use ngx_cpp_dev.Nginx.{Ptr, null}
use ngx_cpp_dev.Memory.{Memory, update}
use ngx_cpp_dev.Memory.Chains.{Cell, Holds, end}
use ngx_cpp_dev.Chain.{append, free}
use ngx_cpp_dev.Chain.Append.{append-Holds}
use ngx_cpp_dev.Chain.Free.{freed, free-freed}
use ngx_cpp_dev.Tests.Data.{first_cell, last_cell, lone_cell, memory, body-Holds, lone-Holds}

abbrev body : List Cell
body = first_cell ∷ last_cell ∷ []

append-Holds_example :
    (m' : Memory) × (append 2 100 300 memory ≡ ok tt m')
    × Holds m' 100 (first_cell ∷ last_cell ∷ lone_cell ∷ [])
    × (m'.bufs ≡ memory.bufs)
append-Holds_example = append-Holds 2 body-Holds lone-Holds refl (omega arith)

-- nginx links a freed node in front of its free list, here the node 900.
abbrev free_chain : Ptr → Memory → Memory
free_chain p m = record m { links = update m.links p (record { buf = 0; next = 900 }) }

free-freed_example :
    (free free_chain 3 100 null memory ≡ ok null (freed free_chain body memory))
    × Holds (freed free_chain body memory) null []
free-freed_example =
    free-freed free_chain 3 body {back = []} (λ p m. (λ a ne. ground arith, refl)) body-Holds end
      (omega arith)
