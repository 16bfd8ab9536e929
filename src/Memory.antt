-- ===== src/Memory.antt =====
-- The memory that chains and buffers live in: a partial map from addresses to `ngx_chain_t` and one
-- to `ngx_buf_t`. A read through a null or dangling pointer is a fault.
pub mod Chains
use ngx_cpp_dev.Base.{ℕ, ◌==◌, Option, none, some, Bool, if◌then◌else◌}
use ngx_cpp_dev.Base.Run.{Run, Cmd, ok, fault, ◌>>=◌, ◌>>◌}
use ngx_cpp_dev.Nginx.{Ptr, null, is_null, Link, Buf}

pub record Memory : Type 0 where
  pub links : Ptr → Option Link
  pub bufs : Ptr → Option Buf

abbrev pub update : {A : Type 0} → (Ptr → Option A) → Ptr → A → Ptr → Option A
update f p a q = if q == p then some a else f q

abbrev pub read : {A : Type 0} → (Ptr → Option A) → Ptr → Memory → Run Memory A
read f p m = if is_null p then fault else elim (f p) [ none ↦ fault | some a ↦ ok a m ]

unfoldable pub load_link : Ptr → Cmd Memory Link
load_link p m = read m.links p m

unfoldable pub load_buf : Ptr → Cmd Memory Buf
load_buf p m = read m.bufs p m

-- A write to memory that was read before, or that the pool has just given.
abbrev pub store_link : Ptr → Link → Cmd Memory (Unit {0})
store_link p l m = ok tt (record m { links = update m.links p l })

abbrev pub store_buf : Ptr → Buf → Cmd Memory (Unit {0})
store_buf p b m = ok tt (record m { bufs = update m.bufs p b })

-- `p->next = q`, `p->buf = b` and `*b = f(*b)`
unfoldable pub set_next : Ptr → Ptr → Cmd Memory (Unit {0})
set_next p q = do l ← load_link p; store_link p (record l { next = q })

unfoldable pub set_buf : Ptr → Ptr → Cmd Memory (Unit {0})
set_buf p b = do l ← load_link p; store_link p (record l { buf = b })

unfoldable pub modify_buf : Ptr → (Buf → Buf) → Cmd Memory (Unit {0})
modify_buf p f = do b ← load_buf p; store_buf p (f b)
