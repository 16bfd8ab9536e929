-- ===== src/Memory/Chains.antt =====
-- When memory holds a chain: from a pointer the `next` fields lead through the cells to null.
use ngx_cpp_dev.Base.{◌==◌, ◌≡◌, ◌≢◌, Bool, true, false, ◌||◌, some, List, [], ◌∷◌, arith}
use ngx_cpp_dev.Base.Run.{ok}
use ngx_cpp_dev.Nginx.{Ptr, null, is_null, Buf}
use ngx_cpp_dev.Memory.{update, Memory, load_link, load_buf, set_next, set_buf, modify_buf}

-- A node of a chain: where it is, where its buffer is, and what the buffer holds.
pub record Cell : Type 0 where
  pub node_at : Ptr
  pub buf_at : Ptr
  pub buf : Buf

-- `p` is a node with the given fields.
pub record IsNode (m : Memory) (p b q : Ptr) (v : Buf) : Type 0 where
  pub node_ne_null : p ≢ null
  pub buf_ne_null : b ≢ null
  pub link : m.links p ≡ some (record { buf = b; next = q })
  pub buf : m.bufs b ≡ some v

pub data Holds (m : Memory) : Ptr → List Cell → Type 0 where
  end : Holds m null []
  node :
      {p b q : Ptr} {v : Buf} {cs : List Cell}
      → IsNode m p b q v
      → Holds m q cs
      → Holds m p (record { node_at = p; buf_at = b; buf = v } ∷ cs)

abbrev pub has_node : Ptr → List Cell → Bool
has_node p [] = false
has_node p (c ∷ cs) = (c.node_at == p) || has_node p cs

abbrev pub has_buf : Ptr → List Cell → Bool
has_buf b [] = false
has_buf b (c ∷ cs) = (c.buf_at == b) || has_buf b cs

module _ {m : Memory} {p b q : Ptr} {v : Buf} (n : IsNode m p b q v) where
  pub not_null : is_null p ≡ false
  not_null = ground arith

  pub load_link-ok : load_link p m ≡ ok (record { buf = b; next = q }) m
  unfolding load_link
  load_link-ok = ground arith

  pub load_buf-ok : load_buf b m ≡ ok v m
  unfolding load_buf
  load_buf-ok = ground arith

  -- Writes through a node do what they say.
  pub set_next-ok :
      (c : Ptr)
      → set_next p c m
        ≡ ok tt (record m { links = update m.links p (record { buf = b; next = c }) })
  unfolding set_next
  set_next-ok c = rw load_link-ok

  pub set_buf-ok :
      (c : Ptr)
      → set_buf p c m ≡ ok tt (record m { links = update m.links p (record { buf = c; next = q }) })
  unfolding set_buf
  set_buf-ok c = rw load_link-ok

  pub modify_buf-ok :
      (f : Buf → Buf) → modify_buf b f m ≡ ok tt (record m { bufs = update m.bufs b (f v) })
  unfolding modify_buf
  modify_buf-ok f = rw load_buf-ok

-- A chain survives a change of memory that spares its nodes and its buffers.
pub Holds-frame :
    {m m' : Memory} {p : Ptr} {cs : List Cell}
    → Holds m p cs
    → ((a : Ptr) → has_node a cs ≡ true → m'.links a ≡ m.links a)
    → ((a : Ptr) → has_buf a cs ≡ true → m'.bufs a ≡ m.bufs a)
    → Holds m' p cs
Holds-frame end hl hb = end
Holds-frame (node {p} {b} n rest) hl hb =
    node (ground (arith, hl p, hb b))
      (Holds-frame rest (λ a i. hl a (ground arith)) (λ a i. hb a (ground arith)))
