-- ===== src/Chain/Clear.antt =====
-- `NgxChain::clear` empties every buffer of the chain and keeps the nodes.
use ngx_cpp_dev.Base.{
  ℕ, zero, suc, ◌<◌, ◌≡◌, refl, true, false, List, [], ◌∷◌, map, arith, length, ◌||◌,
}
use ngx_cpp_dev.Base.Run.{ok}
use ngx_cpp_dev.Nginx.{Ptr, BufSize}
use ngx_cpp_dev.Memory.{Memory, update}
use ngx_cpp_dev.Memory.Chains.{
  Cell, IsNode, Holds, end, node, has_buf, not_null, load_link-ok, modify_buf-ok, Holds-frame,
}
use ngx_cpp_dev.Buf.{clear as clear_buf}
use ngx_cpp_dev.Chain.{clear}
use ngx_cpp_dev.Chain.Walk.{increment-ok, total}

-- No two nodes share a buffer.
abbrev pub OwnsBufs : List Cell → Type 0
OwnsBufs [] = Unit {0}
OwnsBufs (c ∷ cs) = (has_buf c.buf_at cs ≡ false) × OwnsBufs cs

abbrev pub cleared : Cell → Cell
cleared c = record c { buf = clear_buf c.buf }

-- On a chain whose nodes own their buffers `clear` empties each of them and touches no other buffer
-- and no node. The fuel is more than the chain's length.
pub clear-Holds :
    (k : ℕ) {m : Memory} {p : Ptr} {cs : List Cell}
    → Holds m p cs
    → OwnsBufs cs
    → length cs < k
    → (m' : Memory) × (clear k p m ≡ ok tt m')
      × Holds m' p (map cleared cs)
      × ((a : Ptr) → has_buf a cs ≡ false → m'.bufs a ≡ m.bufs a)
      × (m'.links ≡ m.links)
unfolding clear
clear-Holds zero h own fuel = absurd (omega arith)
clear-Holds (suc k) {m} end own fuel = (m, refl, end, λ a i. refl, refl)
clear-Holds (suc k) {m} (node {p} {b} {q} {v} n rest) own fuel =
    let mid : Memory = record m { bufs = update m.bufs b (clear_buf v) } in
    let n_mid : IsNode mid p b q (clear_buf v) = ground arith in
    let kept : Holds mid q _ = Holds-frame rest (λ a i. refl) (λ a i. ground arith) in
    let (m', e, h', same, links) = clear-Holds k kept own.1 (omega arith) in
    (
      m',
      rw (not_null n, load_link-ok n, modify_buf-ok n clear_buf, increment-ok n_mid) e,
      node (ground (arith, same b)) h',
      λ a i. ground (arith, same a),
      links,
    )

abbrev pub AllInMemory : List Cell → Type 0
AllInMemory [] = Unit {0}
AllInMemory (c ∷ cs) = ((c.buf.memory || c.buf.temporary) ≡ true) × AllInMemory cs

-- A cleared chain of buffers in memory has no bytes left.
pub total-cleared :
    (api : BufSize) (cs : List Cell) → AllInMemory cs → total api (map cleared cs) ≡ 0
unfolding clear_buf
total-cleared api [] h = refl
total-cleared api (c ∷ cs) h =
    omega (arith, api.size_in_memory (clear_buf c.buf) h.0, total-cleared api cs h.1)
