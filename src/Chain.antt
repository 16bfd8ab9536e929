-- ===== src/Chain.antt =====
-- ngxpp/NgxChain.hpp: `NgxChainNode`, `NgxChainIterator` and `NgxChain` over memory. Every loop runs
-- on fuel; a chain of `n` nodes needs `n + 1` rounds.
pub mod Walk
pub mod Append
pub mod Clear
pub mod Free
use ngx_cpp_dev.Base.{ℕ, zero, suc, ◌+◌, ◌%◌, ◌^◌, ◌==◌, Bool, ◌||◌, if◌then◌else◌}
use ngx_cpp_dev.Base.Run.{Run, Cmd, ok, out_of_fuel, ◌>>=◌, ◌>>◌, pure, modify}
use ngx_cpp_dev.Nginx.{Ptr, null, is_null, Link, BufSize}
use ngx_cpp_dev.Memory.{Memory, load_link, load_buf, set_next, set_buf, modify_buf}
use ngx_cpp_dev.Buf.{clear as clear_buf}

-- `NgxChainNode::last()`
unfoldable pub node_last : Ptr → Cmd Memory Bool
node_last p = do n ← load_link p; pure (is_null n.next)

-- `NgxChainNode::link(c)`, `finish()` and `set(ptr)`
unfoldable pub link : Ptr → Ptr → Cmd Memory (Unit {0})
link p c = set_next p c

unfoldable pub node_finish : Ptr → Cmd Memory (Unit {0})
unfolding link
node_finish p = link p null

unfoldable pub set : Ptr → Ptr → Cmd Memory (Unit {0})
set p b = set_buf p b

-- `NgxChainNode::free(pool)`; `ngx_free_chain` is nginx's.
unfoldable pub free_node : (ngx_free_chain : Ptr → Memory → Memory) → Ptr → Cmd Memory (Unit {0})
free_node ngx_free_chain p = modify (ngx_free_chain p)

-- `NgxChainIterator::increment`: the end stays the end.
unfoldable pub increment : Ptr → Cmd Memory Ptr
increment p = if is_null p then pure null else do n ← load_link p; pure n.next

-- `visit(v)`: the loop ends where the iterator is null.
unfoldable pub visit : ℕ → (Ptr → Cmd Memory (Unit {0})) → Ptr → Cmd Memory (Unit {0})
visit zero v p = λ _. out_of_fuel
visit (suc k) v p =
    let rest = visit k v in if is_null p then pure tt else do v p; q ← increment p; rest q

-- `size()`; the sum is a `size_t`.
unfoldable pub size_loop : BufSize → ℕ → Ptr → ℕ → Cmd Memory ℕ
size_loop api zero p len = λ _. out_of_fuel
size_loop api (suc k) p len =
    let rest = size_loop api k in
    if is_null p then pure len else do
      c ← load_link p
      b ← load_buf c.buf
      q ← increment p
      rest q ((len + api.size b) % 2 ^ 64)

unfoldable pub size : BufSize → ℕ → Ptr → Cmd Memory ℕ
unfolding size_loop
size api k head = size_loop api k head 0

-- `tail()`: the head is read with no test, as the source does.
unfoldable pub tail : ℕ → Ptr → Cmd Memory Ptr
tail zero p = λ _. out_of_fuel
tail (suc k) p =
    let rest = tail k in do n ← load_link p; if is_null n.next then pure p else rest n.next

unfoldable pub append : ℕ → Ptr → Ptr → Cmd Memory (Unit {0})
append k head ch = do t ← tail k head; set_next t ch

-- `clear()`
unfoldable pub clear : ℕ → Ptr → Cmd Memory (Unit {0})
clear zero p = λ _. out_of_fuel
clear (suc k) p =
    let rest = clear k in
    if is_null p
    then pure tt
    else do c ← load_link p; modify_buf c.buf clear_buf; q ← increment p; rest q

-- `trace(v)`: the last node is visited too, and returned; the head is read with no test.
unfoldable pub trace : ℕ → (Ptr → Cmd Memory (Unit {0})) → Ptr → Cmd Memory Ptr
trace zero v p = λ _. out_of_fuel
trace (suc k) v p =
    let rest = trace k v in
    do n ← load_link p; v p; if is_null n.next then pure p else do m ← load_link p; rest m.next

-- `copy(p)`; `ngx_copy` is nginx's, and returns the end of what it wrote.
unfoldable pub copy :
    BufSize
    → (ngx_copy : Ptr → Ptr → ℕ → Cmd Memory Ptr) → ℕ
    → (head : Ptr) → (p : Ptr) → Cmd Memory Ptr
copy api ngx_copy zero c p = λ _. out_of_fuel
copy api ngx_copy (suc k) c p =
    let rest = copy api ngx_copy k in
    if is_null c then pure p else do
      n ← load_link c
      b ← load_buf n.buf
      p' ← ngx_copy p b.pos_ptr (api.size b)
      q ← increment c
      rest q p'

-- `free(pool, pos)`: the node is freed after the iterator has left it.
unfoldable pub free_loop : (Ptr → Memory → Memory) → ℕ → Ptr → Ptr → Cmd Memory (Unit {0})
free_loop ngx_free_chain zero p pos = λ _. out_of_fuel
free_loop ngx_free_chain (suc k) p pos =
    let rest = free_loop ngx_free_chain k in
    if is_null p || p == pos
    then pure tt
    else do q ← increment p; free_node ngx_free_chain p; rest q pos

unfoldable pub free : (Ptr → Memory → Memory) → ℕ → Ptr → Ptr → Cmd Memory Ptr
unfolding free_loop
free ngx_free_chain k head pos = do free_loop ngx_free_chain k head pos; pure pos
