-- ===== src/Chain/Walk.antt =====
-- The loops of ngxpp/NgxChain.hpp that only read: `size` and `tail`.
use ngx_cpp_dev.Base.{
  ℕ, zero, suc, ◌+◌, ◌%◌, ◌^◌, ◌<◌, ◌≡◌, refl, List, [], ◌∷◌, arith, length, sum_of, ap, ◌∙◌,
}
use ngx_cpp_dev.Base.Run.{ok, fault}
use ngx_cpp_dev.Nginx.{Buf, Ptr, null, BufSize}
use ngx_cpp_dev.Memory.{Memory, load_link}
use ngx_cpp_dev.Memory.Chains.{IsNode, Cell, Holds, end, node, not_null, load_link-ok, load_buf-ok}
use ngx_cpp_dev.Chain.{increment, size_loop, size, tail, append}

-- From a node the iterator goes to the next.
pub increment-ok : {m : Memory} {p b q : Ptr} {v : Buf} → IsNode m p b q v → increment p m ≡ ok q m
unfolding increment
increment-ok n = rw (not_null n, load_link-ok n)

module _ (api : BufSize) where
  abbrev pub total : List Cell → ℕ
  total = sum_of (λ c. api.size c.buf)

  size_loop-total :
      (k len : ℕ) {m : Memory} {p : Ptr} {cs : List Cell}
      → Holds m p cs
      → length cs < k
      → len < 2 ^ 64
      → size_loop api k p len m ≡ ok ((len + total cs) % 2 ^ 64) m
  unfolding size_loop
  size_loop-total zero len h fuel small = absurd (omega arith)
  size_loop-total (suc k) len {m} end fuel small = ap (λ n. ok n m) (omega arith)
  size_loop-total (suc k) len {m} (node {v} n rest) fuel small =
      rw (not_null n, load_link-ok n, load_buf-ok n, increment-ok n)
        (size_loop-total k ((len + api.size v) % 2 ^ 64) rest (omega arith) (omega arith)
          ∙ ap (λ x. ok x m) (omega arith))

  -- `size` returns the sum of the sizes of a chain's buffers modulo `2 ^ 64`, and writes nothing.
  -- The fuel is more than the chain's length.
  pub size-total :
      (k : ℕ) {m : Memory} {p : Ptr} {cs : List Cell}
      → Holds m p cs
      → length cs < k
      → size api k p m ≡ ok (total cs % 2 ^ 64) m
  unfolding size
  size-total k {m} h fuel =
      size_loop-total k 0 h fuel (omega arith) ∙ ap (λ x. ok x m) (omega arith)

-- The address of the last node.
abbrev pub last_node : Cell → List Cell → Ptr
last_node c [] = c.node_at
last_node c (d ∷ ds) = last_node d ds

-- `tail` finds the last node of a chain that is not empty, and writes nothing. The fuel is at least
-- the chain's length.
pub tail-last_node :
    (k : ℕ) {m : Memory} {p : Ptr} {c : Cell} {cs : List Cell}
    → Holds m p (c ∷ cs)
    → length cs < k
    → tail k p m ≡ ok (last_node c cs) m
unfolding tail
tail-last_node zero h fuel = absurd (omega arith)
tail-last_node (suc k) (node n end) fuel = rw (load_link-ok n)
tail-last_node (suc k) (node n (node n' rest)) fuel =
    rw (load_link-ok n, not_null n') (tail-last_node k (node n' rest) (omega arith))

-- On the empty chain `tail`, and so `append`, reads through the null pointer.
pub append-null : (k : ℕ) (ch : Ptr) (m : Memory) → append (suc k) null ch m ≡ fault
unfolding append tail load_link
append-null k ch m = refl
