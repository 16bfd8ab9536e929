-- ===== src/NgxArray.antt =====
-- ngxpp/NgxArray.hpp over `ngx_array_t*`: `none` is the null pointer, and a list stands for the
-- first `nelts` elements.
pub mod Access
use ngx_cpp_dev.Base.{
  ℕ, zero, suc, ◌+◌, Bool, true, false, ◌&&◌, ltb, is_some, Option, none, some, List, [], ◌∷◌, ◌++◌,
  length, get_elem?, if◌then◌else◌,
}
use ngx_cpp_dev.Base.Run.{Run, Cmd, ok, fault, raised, ◌>>=◌, ◌>>◌, pure}
use ngx_cpp_dev.Nginx.{ngx_error, is_null}
use ngx_cpp_dev.Exception.{raise, require, require_rc}
use ngx_cpp_dev.Base.Int.{ℤ}
use ngx_cpp_dev.Base.{◌==◌}
use ngx_cpp_dev.Nginx.{ngx_ok}

abbrev pub Array : Type 0 → Type 0
Array A = Option (List A)

module _ {A : Type 0} where
  abbrev pub size_of : Array A → ℕ
  size_of none = 0
  size_of (some xs) = length xs

  -- What a client sees of an array.
  abbrev pub elements : Array A → List A
  elements none = []
  elements (some xs) = xs

  unfoldable pub size : Array A → ℕ
  size a = size_of a

  -- `elts()[i]`: through the null pointer, or past the elements, the read is a fault.
  abbrev pub elt : Array A → ℕ → Option A
  elt none i = none
  elt (some xs) i = get_elem? xs i

  unfoldable pub read_elt : {S : Type 0} → Array A → ℕ → Cmd S A
  read_elt a i s = elim (elt a i) [ none ↦ fault | some x ↦ ok x s ]

  -- `operator[](i)`
  unfoldable pub at : {S : Type 0} → Array A → ℕ → Cmd S A
  unfolding require raise size
  at a i = require (ltb i (size a) && is_some a) ngx_error >> read_elt a i

  -- `empty()`
  unfoldable pub empty : {S : Type 0} → Array A → Cmd S Bool
  empty none = λ _. fault
  empty (some xs) = pure (is_null (length xs))

  -- `clear()`
  unfoldable pub clear : Cmd (Array A) (Unit {0})
  clear none = fault
  clear (some xs) = ok tt (some [])

  -- `visit(v)`: the loop of `size()` rounds from index `i`, of which `n` are left.
  unfoldable pub visit_from :
      {S : Type 0} → ℕ → ℕ → (A → Cmd S (Unit {0})) → Array A → Cmd S (Unit {0})
  visit_from zero i v a = pure tt
  visit_from (suc n) i v a = let rest = visit_from n (i + 1) v a in do x ← read_elt a i; v x; rest

  unfoldable pub visit : {S : Type 0} → (A → Cmd S (Unit {0})) → Array A → Cmd S (Unit {0})
  unfolding visit_from size
  visit v a = visit_from (size a) 0 v a

  -- `prepare() = x`, which is `push(x)`. `ngx_array_push` is nginx's: the array with `x` in the new
  -- slot, or `none` where it returns null.
  unfoldable pub push :
      (ngx_array_push : A → List A → Option (List A)) → A → Cmd (Array A) (Unit {0})
  unfolding raise
  push ngx_array_push x none = fault
  push ngx_array_push x (some xs) = elim (ngx_array_push x xs) [
    | none ↦ raise ngx_error (some xs)
    | some ys ↦ ok tt (some ys)
  ]

  -- `merge(a)` for another array.
  unfoldable pub merge : (A → List A → Option (List A)) → Array A → Cmd (Array A) (Unit {0})
  unfolding visit push
  merge ngx_array_push a = visit (push ngx_array_push) a

  -- `reinit(n)`, which is `reshape` for the type of the elements that it has: `ngx_array_init` makes
  -- the array an empty one, in its own pool and with room for `n` elements. `allocated` is how many it
  -- had room for.
  unfoldable pub reinit :
      (ngx_array_init : ℕ → Cmd (Array A) ℤ) → (allocated n : ℕ) → Cmd (Array A) (Unit {0})
  unfolding require_rc
  reinit ngx_array_init allocated n none = fault
  reinit ngx_array_init allocated n (some xs) =
      (do rc ← ngx_array_init (if n == 0 then allocated else n); require_rc rc ngx_ok) (some xs)
