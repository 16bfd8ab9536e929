-- ===== src/NgxArray/Access.antt =====
-- Bounds and order of the accesses of ngxpp/NgxArray.hpp.
use native.Mathlib.Numerals.{add-one}
use ngx_cpp_dev.Base.{
  get_elem?-drop, drop-length, Bool-cases, ltb, ℕ, zero, suc, ◌+◌, ◌<◌, ◌≤◌, ◌≡◌, refl, ◌⊎◌, inl,
  inr, none, some, List, arith, length, drop,
}
use ngx_cpp_dev.Base.Run.{Cmd, ok, raised, for_each, and_then-congr}
use ngx_cpp_dev.Nginx.{ngx_error}
use ngx_cpp_dev.Exception.{exception_of}
use ngx_cpp_dev.NgxArray.{read_elt, Array, size, elements, at, elt, visit_from, visit}

read_elt-ok :
    {A S : Type 0} (a : Array A) (i : ℕ) {x : A} (s : S)
    → elt a i ≡ some x
    → read_elt a i s ≡ ok x s
unfolding read_elt
read_elt-ok a i s e = ground arith

-- An access within the size reads that element; any other, through a null array too, throws
-- `NGX_ERROR`. No access is out of bounds.
pub at-elt :
    {A S : Type 0} (a : Array A) (i : ℕ) (s : S)
    → ((i < size a) × (x : A) × (elt a i ≡ some x) × (at a i s ≡ ok x s))
      ⊎ ((size a ≤ i) × (at a i s ≡ raised (exception_of ngx_error) s))
unfolding at
at-elt none i s = inr (omega arith, ground arith)
at-elt (some xs) i s = elim (Bool-cases (ltb i (length xs))) [
  | inl inside ↦
      let lt : i < length xs = ground arith in
      let (x, e, _) = get_elem?-drop xs i lt in
      inl (lt, x, e, rw inside (read_elt-ok (some xs) i s e))
  | inr outside ↦ inr (ground arith, rw outside)
]

visit_from-for_each :
    {A S : Type 0} (n i : ℕ) (v : A → Cmd S (Unit {0})) (xs : List A) (s : S)
    → n + i ≡ length xs
    → visit_from n i v (some xs) s ≡ for_each v (drop i xs) s
unfolding visit_from
visit_from-for_each zero i v xs s e = rw (drop-length xs i (omega arith))
visit_from-for_each (suc n) i v xs s e =
    let (x, found, next) = get_elem?-drop xs i (omega arith) in
    rw (next, read_elt-ok (some xs) i s found)
      (and_then-congr (v x s)
        λ _ t. rw (add-one i) (visit_from-for_each n (suc i) v xs t (omega arith)))

-- `visit` calls its function on every element once and in order; on a null array it does nothing.
pub visit-elements :
    {A S : Type 0} (v : A → Cmd S (Unit {0})) (a : Array A) (s : S)
    → visit v a s ≡ for_each v (elements a) s
unfolding visit size
visit-elements v none s = refl
visit-elements v (some xs) s = visit_from-for_each (length xs) 0 v xs s (omega arith)
