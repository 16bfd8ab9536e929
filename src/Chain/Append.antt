-- ===== src/Chain/Append.antt =====
-- `NgxChain::append` links a chain behind another.
use ngx_cpp_dev.Base.{ℕ, ◌<◌, ◌≡◌, refl, false, List, ◌∷◌, ◌++◌, arith, length}
use ngx_cpp_dev.Base.Run.{ok}
use ngx_cpp_dev.Nginx.{Ptr, null, Buf}
use ngx_cpp_dev.Memory.{Memory, update}
use ngx_cpp_dev.Memory.Chains.{Cell, IsNode, Holds, end, node, has_node, Holds-frame, set_next-ok}
use ngx_cpp_dev.Chain.{append}
use ngx_cpp_dev.Chain.Walk.{last_node, tail-last_node}

last_node-IsNode :
    {m : Memory} {p : Ptr} {c : Cell} {cs : List Cell}
    → Holds m p (c ∷ cs)
    → (b : Ptr) × (v : Buf) × IsNode m (last_node c cs) b null v
last_node-IsNode (node {b} {v} n end) = (b, v, n)
last_node-IsNode (node n (node n' rest)) = last_node-IsNode (node n' rest)

abbrev relinked : Memory → Ptr → Ptr → Ptr → Memory
relinked m t b ch = record m { links = update m.links t (record { buf = b; next = ch }) }

relinked-Holds :
    {m : Memory} {p t b ch : Ptr} {v : Buf} {c : Cell} {cs ds : List Cell}
    → Holds m p (c ∷ cs)
    → IsNode m t b null v
    → t ≡ last_node c cs
    → Holds (relinked m t b ch) ch ds
    → Holds (relinked m t b ch) p (c ∷ cs ++ ds)
relinked-Holds (node n end) last e back = node (ground arith) back
relinked-Holds (node n (node n' rest)) last e back =
    node (ground arith) (relinked-Holds (node n' rest) last e back)

-- Appending a chain to one that is not empty, and whose last node is not in it, gives the chain of
-- the cells of both, and no buffer changes. The fuel is at least the length of the first chain.
pub append-Holds :
    (k : ℕ) {m : Memory} {p ch : Ptr} {c : Cell} {cs ds : List Cell}
    → Holds m p (c ∷ cs)
    → Holds m ch ds
    → has_node (last_node c cs) ds ≡ false
    → length cs < k
    → (m' : Memory) × (append k p ch m ≡ ok tt m') × Holds m' p (c ∷ cs ++ ds) × (m'.bufs ≡ m.bufs)
unfolding append
append-Holds k {m} {ch} {c} {cs} h back apart fuel =
    let (b, v, last) = last_node-IsNode h in
    (
      relinked m (last_node c cs) b ch,
      rw (tail-last_node k h fuel) (set_next-ok last ch),
      relinked-Holds h last refl (Holds-frame back (λ a i. ground arith) (λ a i. refl)),
      refl,
    )
