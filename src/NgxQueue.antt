-- ===== src/NgxQueue.antt =====
-- ngxpp/NgxQueue.hpp: the doubly linked rings of nginx, as containers with iterators. nginx's macros on
-- rings are the interface `Queues`: the head, the last node and the sentinel of the ring of `h` are the
-- node after `h`, the one before it, and `h`, and the insertion at the head is the one after `h`. A
-- node and an iterator are the address of an `ngx_queue_t`; a reverse iterator is that of its base.
pub mod Links
pub mod Ring
pub mod Merged
pub mod Visits
use ngx_cpp_dev.Base.{ℕ, ◌+◌, ◌-◌, ◌%◌, ◌^◌, ◌==◌, ◌≡◌, Bool, true, false, if◌then◌else◌}
use ngx_cpp_dev.Nginx.{Ptr}

-- What nginx documents of its rings: which node follows and which precedes another, and what the
-- insertion of a node that is not the one before or after does to that.
pub record Queues (Q : Type 0) : Type 0 where
  pub next : Q → Ptr → Ptr
  pub prev : Q → Ptr → Ptr
  pub init : Ptr → Q → Q
  pub insert_after : Ptr → Ptr → Q → Q
  pub insert_tail : Ptr → Ptr → Q → Q
  pub remove : Ptr → Q → Q
  pub add : Ptr → Ptr → Q → Q
  pub is_empty : Ptr → Q → Bool
  pub next-init : (h : Ptr) (q : Q) → next (init h q) h ≡ h
  pub prev-init : (h : Ptr) (q : Q) → prev (init h q) h ≡ h
  pub next-insert_after :
      (h x : Ptr) (q : Q) (a : Ptr)
      → (x == h) ≡ false
      → next (insert_after h x q) a ≡ (if a == x then next q h else if a == h then x else next q a)
  pub prev-insert_after :
      (h x : Ptr) (q : Q) (a : Ptr)
      → (x == h) ≡ false
      → prev (insert_after h x q) a ≡ (if a == x then h else if a == next q h then x else prev q a)
  pub next-insert_tail :
      (h x : Ptr) (q : Q) (a : Ptr)
      → (x == h) ≡ false
      → next (insert_tail h x q) a ≡ (if a == x then h else if a == prev q h then x else next q a)
  pub prev-insert_tail :
      (h x : Ptr) (q : Q) (a : Ptr)
      → (x == h) ≡ false
      → prev (insert_tail h x q) a ≡ (if a == x then prev q h else if a == h then x else prev q a)
  pub next-remove :
      (x : Ptr) (q : Q) (a : Ptr)
      → (a == x) ≡ false
      → next (remove x q) a ≡ (if a == prev q x then next q x else next q a)
  pub prev-remove :
      (x : Ptr) (q : Q) (a : Ptr)
      → (a == x) ≡ false
      → prev (remove x q) a ≡ (if a == next q x then prev q x else prev q a)
  pub next-add :
      (h n : Ptr) (q : Q) (a : Ptr)
      → (next q n == n) ≡ false
      → next (add h n q) a
        ≡ (if a == prev q n then h else if a == prev q h then next q n else next q a)
  pub prev-add :
      (h n : Ptr) (q : Q) (a : Ptr)
      → (next q n == n) ≡ false
      → prev (add h n q) a
        ≡ (if a == h then prev q n else if a == next q n then prev q h else prev q a)

module _ {Q : Type 0} (api : Queues Q) where
  -- `NgxQueueNode`: `next()`, `prev()`, `append(v)` and `remove()`
  unfoldable pub node_next : Q → Ptr → Ptr
  node_next q p = api.next q p

  unfoldable pub node_prev : Q → Ptr → Ptr
  node_prev q p = api.prev q p

  unfoldable pub node_append : Ptr → (v : Ptr) → Q → Q
  node_append p v q = api.insert_after p v q

  unfoldable pub node_remove : Ptr → Q → Q
  node_remove p q = api.remove p q

  -- `NgxQueueIterator`: `increment` and `decrement`
  unfoldable pub increment : Q → Ptr → Ptr
  increment q cur = api.next q cur

  unfoldable pub decrement : Q → Ptr → Ptr
  decrement q cur = api.prev q cur

  -- `NgxQueue` of the ring that is headed by `h`: `init()`, `empty()`, `begin()`, `front()` and `back()`
  unfoldable pub init : (h : Ptr) → Q → Q
  init h q = api.init h q

  unfoldable pub empty : (h : Ptr) → Q → Bool
  empty h q = api.is_empty h q

  unfoldable pub begin : (h : Ptr) → Q → Ptr
  begin h q = api.next q h

  unfoldable pub front : (h : Ptr) → Q → Ptr
  front h q = api.next q h

  unfoldable pub back : (h : Ptr) → Q → Ptr
  back h q = api.prev q h

  -- `insert(v)`, `append(v)`, `insert(iter, v)` and `merge(n)`
  unfoldable pub insert : (h v : Ptr) → Q → Q
  insert h v q = api.insert_after h v q

  unfoldable pub append : (h v : Ptr) → Q → Q
  append h v q = api.insert_tail h v q

  unfoldable pub insert_at : (iter v : Ptr) → Q → Q
  unfolding node_append
  insert_at iter v q = node_append iter v q

  unfoldable pub merge : (h n : Ptr) → Q → Q
  merge h n q = api.add h n q

-- `NgxQueueNode::data()`: the object whose member the node is, `offset` bytes before it.
unfoldable pub data_at : (offset : ℕ) → Ptr → Ptr
data_at offset p = (p + 2 ^ 64 - offset) % 2 ^ 64

-- `end()`: `ngx_queue_sentinel` is the head itself.
unfoldable pub end : (h : Ptr) → Ptr
end h = h

-- `equal(o)` of an iterator
unfoldable pub equal : Ptr → Ptr → Bool
equal cur o = cur == o

-- `rbegin()` and `rend()` by their bases
unfoldable pub rbegin : (h : Ptr) → Ptr
unfolding end
rbegin h = end h

unfoldable pub rend : {Q : Type 0} (api : Queues Q) (h : Ptr) → Q → Ptr
unfolding begin
rend api h q = begin api h q
