-- ===== src/NgxRbtree/Inorder.antt =====
-- The order in which ngxpp/NgxRbtree.hpp visits a tree.
use ngx_cpp_dev.Base.Run.{for_each, Cmd, for_each-append, and_then-congr}
use ngx_cpp_dev.Base.{
  zero, suc, arith, length, length-append, sym, ◌∙◌, ◌<◌, ℕ, ◌==◌, ◌≡◌, false, Option, some, List,
  [], ◌∷◌, ◌++◌,
}
use ngx_cpp_dev.Nginx.{Ptr}
use ngx_cpp_dev.NgxRbtree.{Tree, traverse, do_traverse, Node}

-- The shape that memory holds at `p`, with its nodes from left to right: the sentinel is the end of
-- every branch.
pub data Shape (nodes : Ptr → Option Node) (sentinel : Ptr) : Ptr → List Ptr → Type 0 where
  leaf : Shape nodes sentinel sentinel []
  branch :
      {p l r k : ℕ} {pl pr : List Ptr}
      → (p == sentinel) ≡ false
      → nodes p ≡ some (record { key = k; left = l; right = r })
      → Shape nodes sentinel l pl
      → Shape nodes sentinel r pr
      → Shape nodes sentinel p (pl ++ p ∷ pr)

module _ {S : Type 0} (nodes : Ptr → Option Node) (f : Ptr → Cmd S (Unit {0})) where
  do_traverse-for_each :
      (k : ℕ) {sentinel p : Ptr} {ps : List Ptr} (s : S)
      → Shape nodes sentinel p ps
      → length ps < k
      → do_traverse nodes k sentinel f p s ≡ for_each f ps s
  unfolding do_traverse
  do_traverse-for_each zero s t fuel = absurd (omega arith)
  do_traverse-for_each (suc k) s leaf fuel = ground arith
  do_traverse-for_each (suc k) s (branch {p} {l} {r} {pl} {pr} inner here left right) fuel =
      let size = length-append pl (p ∷ pr) in
      let on_left = do_traverse-for_each k s left (omega (arith, size)) in
      rw (inner, here, on_left)
        (and_then-congr (for_each f pl s) (λ u t.
            and_then-congr (f p t) (λ u' v. do_traverse-for_each k v right (omega (arith, size))))
          ∙ sym (for_each-append f pl (p ∷ pr) s))

  -- The traversal visits every node of a tree once, from left to right, and ends; the fuel is more
  -- than the number of nodes. The visits do not change the tree.
  pub traverse-for_each :
      (k : ℕ) (t : Tree) (ps : List Ptr) (s : S)
      → Shape nodes t.sentinel t.root ps
      → length ps < k
      → traverse nodes k f t s ≡ for_each f ps s
  unfolding traverse
  traverse-for_each k t ps s shape fuel = do_traverse-for_each k s shape fuel
