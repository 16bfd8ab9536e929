-- ===== src/Chain/Free.antt =====
-- `NgxChain::free` gives back the nodes in front of a position.
use mathlib.Core.Path.{ap, sym, subst}
use ngx_cpp_dev.Base.{
  ◌||◌, ==_iff, inr, inl, Bool-cases, ℕ, zero, suc, ◌<◌, ◌≤◌, ◌==◌, ◌≡◌, ◌≢◌, refl, true, false,
  List, [], ◌∷◌, ◌++◌, arith, length, length-append,
}
use ngx_cpp_dev.Base.Run.{ok}
use ngx_cpp_dev.Nginx.{Ptr, Buf}
use ngx_cpp_dev.Memory.{Memory}
use ngx_cpp_dev.Memory.Chains.{Cell, IsNode, Holds, end, node, has_node, not_null, Holds-frame}
use ngx_cpp_dev.Chain.{free_node, free_loop, free}
use ngx_cpp_dev.Chain.Walk.{increment-ok}

-- A pointer heads chains of one length only.
length_unique :
    {m : Memory} {p r : Ptr} {cs ds : List Cell}
    → p ≡ r
    → Holds m p cs
    → Holds m r ds
    → length cs ≡ length ds
length_unique e end end = refl
length_unique e end (node n rest) = absurd (n.node_ne_null (sym e))
length_unique e (node n rest) end = absurd (n.node_ne_null e)
length_unique e (node n rest) (node n' rest') = ap suc (length_unique (ground arith) rest rest')

-- A node of a chain heads a chain that is no longer.
has_node-Holds :
    {m : Memory} {p : Ptr} {cs : List Cell} (a : Ptr)
    → Holds m p cs
    → has_node a cs ≡ true
    → (ds : List Cell) × Holds m a ds × (length ds ≤ length cs)
has_node-Holds a end i = cc
has_node-Holds {m} {cs} a (node {p} n rest) i = elim (Bool-cases (p == a)) [
  | inl hit ↦ (cs, subst (λ r. Holds m r cs) ((==_iff p a).0 hit) (node n rest), omega arith)
  | inr miss ↦ let (ds, h, le) = has_node-Holds a rest (ground arith) in (ds, h, omega arith)
]

-- So no node comes twice.
pub has_node-tail :
    {m : Memory} {p b q : Ptr} {v : Buf} {cs : List Cell}
    → IsNode m p b q v
    → Holds m q cs
    → has_node p cs ≡ false
has_node-tail {p} {cs} n rest = elim (Bool-cases (has_node p cs)) [
  | inl again ↦
      let (ds, h, le) = has_node-Holds p rest again in
      absurd (omega (arith, length_unique refl (node n rest) h))
  | inr once ↦ once
]

-- nginx's `ngx_free_chain` writes to the node that it is given, and to no other.
abbrev pub FreesOnly : (Ptr → Memory → Memory) → Type 0
FreesOnly f =
    (p : Ptr) (m : Memory)
    → ((a : Ptr) → a ≢ p → (f p m).links a ≡ m.links a) × ((f p m).bufs ≡ m.bufs)

-- The memory after each of the cells' nodes was freed, in order.
abbrev pub freed : (Ptr → Memory → Memory) → List Cell → Memory → Memory
freed f [] m = m
freed f (c ∷ cs) m = freed f cs (f c.node_at m)

head_unique : {m : Memory} {p r : Ptr} {cs : List Cell} → Holds m p cs → Holds m r cs → p ≡ r
head_unique end end = refl
head_unique (node n rest) (node n' rest') = refl

has_node-append :
    (a : Ptr) (cs ds : List Cell) → has_node a (cs ++ ds) ≡ (has_node a cs || has_node a ds)
has_node-append a [] ds = refl
has_node-append a (c ∷ cs) ds = ground (arith, has_node-append a cs ds)

freed_node-Holds :
    (f : Ptr → Memory → Memory) {m : Memory} (p : Ptr) {r : Ptr} {cs : List Cell}
    → FreesOnly f
    → Holds m r cs
    → has_node p cs ≡ false
    → Holds (f p m) r cs
freed_node-Holds f {m} p only h out =
    Holds-frame h (λ a i. (only p m).0 a (λ e. cc)) (λ a i. ap (λ g. g a) (only p m).1)

-- The position stands behind the cells `cs`: at a node of `back`, or at the end.
free_loop-freed :
    (f : Ptr → Memory → Memory) (k : ℕ) {m : Memory} {p pos : Ptr} (cs : List Cell)
    {back : List Cell}
    → FreesOnly f
    → Holds m p (cs ++ back)
    → Holds m pos back
    → length cs < k
    → (free_loop f k p pos m ≡ ok tt (freed f cs m)) × Holds (freed f cs m) pos back
unfolding free_loop free_node
free_loop-freed f zero cs only h hb fuel = absurd (omega arith)
free_loop-freed f (suc k) [] only h hb fuel = (ground (arith, head_unique h hb), hb)
free_loop-freed f (suc k) {m} {p} {pos} (c ∷ cs) {back} only (node n rest) hb fuel =
    let apart : p ≢ pos =
      λ e. absurd (omega (arith, length_unique e (node n rest) hb, length-append cs back)) in
    let stays : (p == pos) ≡ false = ground arith in
    let out = has_node-tail n rest in
    let out_back : has_node p back ≡ false = ground (arith, has_node-append p cs back) in
    rw (not_null n, stays, increment-ok n)
      (free_loop-freed f k cs only (freed_node-Holds f p only rest out)
        (freed_node-Holds f p only hb out_back) (omega arith))

-- `free` hands each node in front of the position to nginx, once and in order, returns the
-- position, and leaves the chain from there on as it was; with the position null it frees all. The
-- position is on the chain or null, `ngx_free_chain` writes to the node that it is given and to no
-- other, and the fuel is more than the number of nodes to free.
pub free-freed :
    (f : Ptr → Memory → Memory) (k : ℕ) {m : Memory} {p pos : Ptr} (cs : List Cell)
    {back : List Cell}
    → FreesOnly f
    → Holds m p (cs ++ back)
    → Holds m pos back
    → length cs < k
    → (free f k p pos m ≡ ok pos (freed f cs m)) × Holds (freed f cs m) pos back
unfolding free
free-freed f k cs only h hb fuel = let (e, h') = free_loop-freed f k cs only h hb fuel in (rw e, h')
