-- ===== src/NgxRbtree.antt =====
-- ngxpp/NgxRbtree.hpp: the traversal of nginx's trees. `nodes` is what memory holds of a tree, by
-- address; inserting and removing are nginx's.
pub mod Ascending
pub mod Inorder
use ngx_cpp_dev.Base.{ℕ, zero, suc, ◌==◌, Bool, Option, none, some, if◌then◌else◌}
use ngx_cpp_dev.Base.Run.{Cmd, fault, out_of_fuel, ◌>>◌, pure}
use ngx_cpp_dev.Nginx.{Ptr}

-- `ngx_rbtree_node_t` and `ngx_rbtree_t`
pub record Node : Type 0 where
  pub key : ℕ
  pub left : Ptr
  pub right : Ptr

pub record Tree : Type 0 where
  pub root : Ptr
  pub sentinel : Ptr

unfoldable pub empty : Tree → Bool
empty t = t.root == t.sentinel

module _ {S : Type 0} (nodes : Ptr → Option Node) where
  -- `min_key()`: `ngx_rbtree_min` is nginx's. The assertion is of a tree that is not empty.
  unfoldable pub min_key : (ngx_rbtree_min : Ptr → Ptr → Ptr) → Tree → Cmd S ℕ
  unfolding empty
  min_key ngx_rbtree_min t =
      if empty t then (λ _. fault) else elim (nodes (ngx_rbtree_min t.root t.sentinel)) [
        | none ↦ (λ _. fault)
        | some n ↦ pure n.key
      ]

  -- `do_traverse(p, f)` and `traverse(f)`, with fuel for the depth.
  unfoldable pub do_traverse :
      ℕ → (sentinel : Ptr) → (f : Ptr → Cmd S (Unit {0})) → Ptr → Cmd S (Unit {0})
  do_traverse zero sentinel f p = λ _. out_of_fuel
  do_traverse (suc k) sentinel f p =
      let below = do_traverse k sentinel f in
      if p == sentinel
      then pure tt
      else elim (nodes p) [ none ↦ (λ _. fault) | some n ↦ do below n.left; f p; below n.right ]

  unfoldable pub traverse : ℕ → (f : Ptr → Cmd S (Unit {0})) → Tree → Cmd S (Unit {0})
  unfolding do_traverse
  traverse k f t = do_traverse k t.sentinel f t.root
