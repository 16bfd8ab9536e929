-- ===== src/NgxRbtree/Ascending.antt =====
-- The order of the keys in which ngxpp/NgxRbtree.hpp visits a search tree.
use ngx_cpp_dev.Base.Run.{for_each, Cmd}
use ngx_cpp_dev.Base.{
  arith, length, ◌<◌, ◌≤◌, ℕ, ◌==◌, ◌≡◌, false, Option, none, some, List, [], ◌∷◌, ◌++◌, map, sym,
}
use mathlib.Core.List.{map-append}
use mathlib.Core.Path.{subst}
use ngx_cpp_dev.Nginx.{Ptr}
use ngx_cpp_dev.NgxRbtree.{Tree, traverse, Node}
use ngx_cpp_dev.NgxRbtree.Inorder.{Shape, leaf, branch, traverse-for_each}

-- A tree whose keys stand in order, from `low` to `high`: no key on the left of a node is greater
-- than the node's, and none on its right is less.
pub data SearchTree (nodes : Ptr → Option Node) (sentinel : Ptr)
    : (low high : ℕ) → Ptr → List Ptr → Type 0 where
  nothing : {low high : ℕ} → low ≤ high → SearchTree nodes sentinel low high sentinel []
  ordered :
      {p l r k low high : ℕ} {pl pr : List Ptr}
      → (p == sentinel) ≡ false
      → nodes p ≡ some (record { key = k; left = l; right = r })
      → SearchTree nodes sentinel low k l pl
      → SearchTree nodes sentinel k high r pr
      → SearchTree nodes sentinel low high p (pl ++ p ∷ pr)

-- Numbers that do not fall, all of them from `low` to `high`.
abbrev pub Ascends : (low high : ℕ) → List ℕ → Type 0
Ascends low high [] = low ≤ high
Ascends low high (k ∷ ks) = (low ≤ k) × Ascends k high ks

Ascends-join :
    (low k high : ℕ) (xs ys : List ℕ)
    → Ascends low k xs
    → Ascends k high ys
    → Ascends low high (xs ++ k ∷ ys)
Ascends-join low k high [] ys below above = (below, above)
Ascends-join low k high (x ∷ xs) ys (first, below) above =
    (first, Ascends-join x k high xs ys below above)

module _ (nodes : Ptr → Option Node) where
  abbrev pub key_of : Ptr → ℕ
  key_of p = elim (nodes p) [ none ↦ 0 | some n ↦ n.key ]

  SearchTree-Shape :
      {sentinel p low high : ℕ} {ps : List Ptr}
      → SearchTree nodes sentinel low high p ps
      → Shape nodes sentinel p ps
  SearchTree-Shape (nothing le) = leaf
  SearchTree-Shape (ordered inner here left right) =
      branch inner here (SearchTree-Shape left) (SearchTree-Shape right)

  SearchTree-Ascends :
      {sentinel p low high : ℕ} {ps : List Ptr}
      → SearchTree nodes sentinel low high p ps
      → Ascends low high (map key_of ps)
  SearchTree-Ascends (nothing le) = le
  SearchTree-Ascends (ordered {p} {k} {low} {high} {pl} {pr} inner here left right) =
      let here_key : key_of p ≡ k = ground (arith, here) in
      rw (map-append key_of pl (p ∷ pr)) (
        subst (λ x. Ascends low high (map key_of pl ++ x ∷ map key_of pr)) (sym here_key)
          (Ascends-join low k high (map key_of pl) (map key_of pr) (SearchTree-Ascends left)
            (SearchTree-Ascends right)))

  -- The traversal of a search tree visits every node once, in the order of the keys, and ends. The
  -- fuel is more than the number of nodes, keys are compared as numbers, and the visits do not
  -- change the tree.
  pub traverse-Ascends :
      {S : Type 0} (f : Ptr → Cmd S (Unit {0})) (k : ℕ) (t : Tree) (low high : ℕ) (ps : List Ptr)
      (s : S)
      → SearchTree nodes t.sentinel low high t.root ps
      → length ps < k
      → (traverse nodes k f t s ≡ for_each f ps s) × Ascends low high (map key_of ps)
  traverse-Ascends f k t low high ps s tree fuel =
      (traverse-for_each nodes f k t ps s (SearchTree-Shape tree) fuel, SearchTree-Ascends tree)
