-- ===== src/HttpTest/Buffers/Filled.antt =====
-- What `buf(r)` of http/test/NdgTestHandler.hpp prints.
use ngx_cpp_dev.Base.{
  ℕ, zero, suc, ◌+◌, ◌*◌, ◌-◌, ◌%◌, ◌^◌, ◌<◌, ◌==◌, ◌≡◌, ◌≢◌, ◌||◌, ◌∙◌, refl, Bool, true, false,
  List, [], ◌∷◌, ◌++◌, map, some, arith, length, ap, append_assoc,
}
use ngx_cpp_dev.Base.Int.{pos}
use ngx_cpp_dev.Base.Run.{Cmd, ok}
use ngx_cpp_dev.Nginx.{Ptr, null, Buf, BufSize}
use ngx_cpp_dev.Exception.{require_ptr, require}
use ngx_cpp_dev.Memory.{Memory, update, load_link, load_buf, modify_buf, set_buf, set_next}
use ngx_cpp_dev.Memory.Chains.{
  Cell, IsNode, Holds, end, node, has_buf, has_node, not_null, load_link-ok, modify_buf-ok,
  Holds-frame,
}
use ngx_cpp_dev.Buf.{range, boundary}
use ngx_cpp_dev.Pool.{temp_buffer, chain}
use ngx_cpp_dev.Pool.Objects.{chain_of_bufs}
use ngx_cpp_dev.Chain.{size, visit, node_last, set, link}
use ngx_cpp_dev.Chain.Clear.{OwnsBufs}
use ngx_cpp_dev.Chain.Walk.{increment-ok, total, size-total}
use ngx_cpp_dev.HttpTest.Containers.{Trial}
use ngx_cpp_dev.HttpTest.Buffers.{five, five_more, new_buf, new_chain, fill, buf}

abbrev pub filled : Cell → Cell
filled c = record c { buf = five c.buf }

-- The loop fills every buffer of a chain whose nodes own their buffers.
fill-Holds :
    (k : ℕ) {m : Memory} {p : Ptr} {cs : List Cell}
    → Holds m p cs
    → OwnsBufs cs
    → length cs < k
    → (m' : Memory) × (fill k p m ≡ ok tt m')
      × Holds m' p (map filled cs)
      × ((a : Ptr) → has_buf a cs ≡ false → m'.bufs a ≡ m.bufs a)
      × (m'.links ≡ m.links)
unfolding fill visit
fill-Holds zero h own fuel = absurd (omega arith)
fill-Holds (suc k) {m} end own fuel = (m, refl, end, λ a i. refl, refl)
fill-Holds (suc k) {m} (node {p} {b} {q} {v} n rest) own fuel =
    let mid : Memory = record m { bufs = update m.bufs b (five v) } in
    let n_mid : IsNode mid p b q (five v) = ground arith in
    let kept : Holds mid q _ = Holds-frame rest (λ a i. refl) (λ a i. ground arith) in
    let (m', e, h', same, links) = fill-Holds k kept own.1 (omega arith) in
    (
      m',
      rw (not_null n, load_link-ok n, modify_buf-ok n five, increment-ok n_mid) e,
      node (ground (arith, same b)) h',
      λ a i. ground (arith, same a),
      links,
    )

-- A new buffer of ten bytes in memory.
abbrev pub IsFresh : Buf → Type 0
IsFresh v =
    ((v.memory || v.temporary) ≡ true)
    × (v.last_ptr ≡ v.pos_ptr)
    × (v.start_ptr ≡ v.pos_ptr)
    × (v.end_ptr ≡ v.pos_ptr + 10)
    × (v.pos_ptr + 10 < 2 ^ 64)

new_buf-ok :
    (in_memory in_memory_only : Buf → Bool) (b : Ptr) (created : Buf) (s : Trial Memory)
    → b ≢ null
    → IsFresh created
    → in_memory created ≡ true
    → in_memory_only created ≡ true
    → (m : Memory) × (new_buf in_memory in_memory_only b created s
        ≡ ok b (record s { container = m }))
      × (m.links ≡ s.container.links)
      × (m.bufs b ≡ some (five created))
unfolding new_buf temp_buffer range boundary load_buf modify_buf require_ptr require
new_buf-ok in_memory in_memory_only b created s b_given (memory, empty, front, back, small) mem
      only =
    let self : (b == b) ≡ true = ground arith in
    let given : (b == 0) ≡ false = ground arith in
    let none_yet : ((created.last_ptr + 2 ^ 64 - created.pos_ptr) % 2 ^ 64 == 0) ≡ true =
      ground arith in
    let ten : ((created.end_ptr + 2 ^ 64 - created.start_ptr) % 2 ^ 64 == 10) ≡ true =
      ground arith in
    let five_now : (((created.last_ptr + 5) % 2 ^ 64 + 2 ^ 64 - created.pos_ptr) % 2 ^ 64 == 5)
        ≡ true =
      ground arith in
    (
      record s.container {
        bufs = update (update s.container.bufs b created) b (five_more created);
      },
      simp (given, self, mem, only, none_yet, ten, five_now),
      refl,
      rw (self, empty) refl,
    )

-- What `ngx_create_chain_of_bufs` gives: the chain of these cells at `q`. The node at `p` and the
-- buffer at `b` stay as they are.
abbrev pub CreatesBufs : (Cmd Memory Ptr) → (q : Ptr) → List Cell → (p b : Ptr) → Type 0
CreatesBufs create q cs p b =
    (m : Memory)
    → (m' : Memory) × (create m ≡ ok q m')
      × Holds m' q cs
      × (m'.links p ≡ m.links p)
      × (m'.bufs b ≡ m.bufs b)

new_chain-ok :
    (create : Cmd Memory Ptr) (p uninitialised b q : Ptr) (cs : List Cell) (v : Buf)
    (s : Trial Memory)
    → CreatesBufs create q cs p b
    → p ≢ null
    → b ≢ null
    → q ≢ null
    → has_node p cs ≡ false
    → s.container.bufs b ≡ some v
    → (m : Memory) × (new_chain create p uninitialised b s ≡ ok p (record s { container = m }))
      × Holds m p (record { node_at = p; buf_at = b; buf = v } ∷ cs)
unfolding new_chain chain chain_of_bufs node_last set link require_ptr require load_link set_buf
    set_next
new_chain-ok create p uninitialised b q cs v s law p_given b_given q_given apart here =
    let self : (p == p) ≡ true = ground arith in
    let p0 : (p == 0) ≡ false = ground arith in
    let q0 : (q == 0) ≡ false = ground arith in
    let made : Memory = record s.container {
      links =
          update (update s.container.links p (record { buf = uninitialised; next = null })) p
            (record { buf = b; next = null });
    } in
    let (m, e, h, links, bufs) = law made in
    let first : m.links p ≡ some (record { buf = b; next = null }) = links ∙ rw self refl in
    (
      record m { links = update m.links p (record { buf = b; next = q }) },
      simp (p0, self, e, q0, first),
      node
          (record {
            node_ne_null = p_given;
            buf_ne_null = b_given;
            link = rw self refl;
            buf = bufs ∙ here;
          })
          (Holds-frame h (λ a i. ground arith) (λ a i. refl)),
    )

abbrev pub AllFresh : List Cell → Type 0
AllFresh [] = Unit {0}
AllFresh (c ∷ cs) = IsFresh c.buf × AllFresh cs

module _ (api : BufSize) where
  size-fresh : (v : Buf) → IsFresh v → api.size v ≡ 0
  size-fresh v (memory, empty, front, back, small) = omega (arith, api.size_in_memory v memory)

  size-five : (v : Buf) → IsFresh v → api.size (five v) ≡ 5
  size-five v (memory, empty, front, back, small) =
      omega (arith, api.size_in_memory (five v) memory)

  total-fresh : (cs : List Cell) → AllFresh cs → total api cs ≡ 0
  total-fresh [] f = refl
  total-fresh (c ∷ cs) (f, fs) = omega (arith, size-fresh c.buf f, total-fresh cs fs)

  total-filled : (cs : List Cell) → AllFresh cs → total api (map filled cs) ≡ 5 * length cs
  total-filled [] f = refl
  total-filled (c ∷ cs) (f, fs) = omega (arith, size-five c.buf f, total-filled cs fs)

  length-filled : (cs : List Cell) → length (map filled cs) ≡ length cs
  length-filled [] = refl
  length-filled (c ∷ cs) = ap suc (length-filled cs)

  -- `buf(r)` keeps all its assertions, prints that the chain has five bytes before its other buffers
  -- are filled and fifteen afterwards, and leaves a chain of three buffers of five bytes each. The
  -- memory that nginx gives is new, its buffers are empty and have room for ten bytes, and there are
  -- two of them in the chain that it creates; its macros say of the first that it is in memory only.
  -- The fuel is more than three.
  pub buf-Filled :
      (in_memory in_memory_only : Buf → Bool) (create : Cmd Memory Ptr) (k : ℕ) (b : Ptr)
      (created : Buf) (p uninitialised q : Ptr) (cs : List Cell) (s : Trial Memory)
      → b ≢ null
      → p ≢ null
      → q ≢ null
      → IsFresh created
      → in_memory created ≡ true
      → in_memory_only created ≡ true
      → CreatesBufs create q cs p b
      → has_node p cs ≡ false
      → OwnsBufs (record { node_at = p; buf_at = b; buf = five created } ∷ cs)
      → AllFresh cs
      → length cs ≡ 2
      → 3 < k
      → (m : Memory) × (buf api in_memory in_memory_only create k b created p uninitialised s
          ≡ ok tt (record { container = m; out = s.out ++ pos 5 ∷ pos 15 ∷ [] }))
        × Holds m p (record { node_at = p; buf_at = b; buf = five created } ∷ map filled cs)
  unfolding buf
  buf-Filled in_memory in_memory_only create k b created p uninitialised q cs s b_given p_given
        q_given fresh mem only law apart own news two enough =
      let head : Cell = record { node_at = p; buf_at = b; buf = five created } in
      let (m1, made, links, here) =
        new_buf-ok in_memory in_memory_only b created s b_given fresh mem only in
      let (m2, linked, chain) =
        new_chain-ok create p uninitialised b q cs (five created) (record s { container = m1 }) law
          p_given b_given q_given apart here in
      let (m3, full, after, bufs, same) = fill-Holds k chain own (omega arith) in
      let five_now : api.size (five created) ≡ 5 = size-five created fresh in
      let five_again : api.size (five (five created)) ≡ 5 = size-five created fresh in
      let first : size api k p m2 ≡ ok 5 m2 =
        size-total api k chain (omega arith)
        ∙ ap (λ n. ok n m2) (omega (arith, five_now, total-fresh cs news)) in
      let second : size api k p m3 ≡ ok 15 m3 =
        size-total api k after (omega (arith, length-filled cs))
        ∙ ap (λ n. ok n m3) (omega (arith, five_again, total-filled cs news)) in
      (m3, simp (made, linked, first, full, second, append_assoc), after)
