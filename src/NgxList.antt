-- ===== src/NgxList.antt =====
-- ngxpp/NgxList.hpp over `ngx_list_t`: a first part, and the parts that its `next` fields lead to.
-- An iterator holds the parts from `m_part` on, whether `m_data` is set, and `m_count`.
pub mod Position
pub mod Order
pub mod Update
pub mod Growth
pub mod Reinit
use ngx_cpp_dev.Base.{
  ℕ, zero, suc, ◌+◌, ◌==◌, ◌≡◌, Bool, true, false, not, ◌||◌, ◌&&◌, leb, Option, none, some, List,
  [], ◌∷◌, ◌++◌, if◌then◌else◌, length, get_elem?,
}
use ngx_cpp_dev.Base.Run.{Cmd, ok, fault, out_of_fuel, ◌>>=◌, ◌>>◌, pure}
use ngx_cpp_dev.Nginx.{is_null, ngx_error}
use ngx_cpp_dev.Exception.{raise, require}

-- `ngx_list_part_t`: the first `nelts` elements, and whether `elts` is not null.
pub record Part (A : Type 0) : Type 0 where
  pub elts : List A
  pub has_elts : Bool

-- `ngx_list_t`
pub record NgxList (A : Type 0) : Type 0 where
  pub part : Part A
  pub rest : List (Part A)

-- `NgxListIterator`
pub record Iter (A : Type 0) : Type 0 where
  pub parts : List (Part A)
  pub has_data : Bool
  pub count : ℕ

module _ {A : Type 0} where
  -- The iterator's constructors, `begin()` and `end()`.
  unfoldable pub begin : NgxList A → Iter A
  begin l = record { parts = l.part ∷ l.rest; has_data = l.part.has_elts; count = 0 }

  unfoldable pub at_end : Iter A
  at_end = record { parts = []; has_data = false; count = 0 }

  abbrev pub done_at : List (Part A) → Bool → Bool
  done_at [] d = true
  done_at (p ∷ ps) d = not d || is_null (length p.elts)

  -- `operator!`
  unfoldable pub done : Iter A → Bool
  done it = done_at it.parts it.has_data

  abbrev pub slot : List (Part A) → ℕ → Option A
  slot [] i = none
  slot (p ∷ ps) i = get_elem? p.elts i

  -- `dereference`: the test is of the data pointer; a read past the elements is a fault.
  unfoldable pub dereference : {S : Type 0} → Iter A → Cmd S A
  unfolding require raise
  dereference it = require it.has_data ngx_error >> λ s. elim (slot it.parts it.count) [
    | none ↦ fault
    | some a ↦ ok a s
  ]

  abbrev pub next_part : List (Part A) → Iter A
  next_part [] = record { parts = []; has_data = false; count = 0 }
  next_part (p ∷ ps) = record { parts = p ∷ ps; has_data = p.has_elts; count = 0 }

  abbrev pub increment_at : List (Part A) → Bool → ℕ → Iter A
  increment_at [] d i = record { parts = []; has_data = d; count = i }
  increment_at (p ∷ ps) d i =
      if not d
      then record { parts = p ∷ ps; has_data = d; count = i }
      else if leb (length p.elts) (i + 1)
      then next_part ps
      else record { parts = p ∷ ps; has_data = d; count = i + 1 }

  -- `increment`
  unfoldable pub increment : Iter A → Iter A
  increment it = increment_at it.parts it.has_data it.count

  -- `equal`, for two iterators of one list: parts of one list are told apart by how many follow.
  unfoldable pub equal : Iter A → Iter A → Bool
  equal x y =
      length x.parts == length y.parts
      && (if x.has_data then y.has_data else not y.has_data)
      && x.count == y.count

  -- `visit(v)`, with a round of fuel for each step of the iterator.
  unfoldable pub visit_loop : {S : Type 0} → ℕ → (A → Cmd S (Unit {0})) → Iter A → Cmd S (Unit {0})
  visit_loop zero v it = λ _. out_of_fuel
  visit_loop (suc k) v it =
      let rest = visit_loop k v in
      if done it then pure tt else do a ← dereference it; v a; rest (increment it)

  unfoldable pub visit : {S : Type 0} → ℕ → (A → Cmd S (Unit {0})) → NgxList A → Cmd S (Unit {0})
  visit k v l = visit_loop k v (begin l)

  -- `find(p)`
  unfoldable pub find_loop : {S : Type 0} → ℕ → (A → Bool) → Iter A → Cmd S (Iter A)
  find_loop zero p it = λ _. out_of_fuel
  find_loop (suc k) p it =
      let rest = find_loop k p in
      if done it
      then pure at_end
      else do a ← dereference it; if p a then pure it else rest (increment it)

  unfoldable pub find : {S : Type 0} → ℕ → (A → Bool) → NgxList A → Cmd S (Iter A)
  find k p l = find_loop k p (begin l)

  -- `empty()`: the first part alone is asked.
  unfoldable pub empty : NgxList A → Bool
  empty l = is_null (length l.part.elts)

  unfoldable pub clear : NgxList A → NgxList A
  clear l = record { part = record l.part { elts = [] }; rest = [] }

  abbrev pub modify_elt : ℕ → (A → A) → List A → List A
  modify_elt i f [] = []
  modify_elt zero f (x ∷ xs) = f x ∷ xs
  modify_elt (suc i) f (x ∷ xs) = x ∷ modify_elt i f xs

  -- A write to element `i` of the part that stands `n` parts from the end, itself counted.
  unfoldable pub modify_parts : ℕ → ℕ → (A → A) → List (Part A) → List (Part A)
  modify_parts n i f [] = []
  modify_parts n i f (p ∷ ps) =
      if length (p ∷ ps) == n
      then record p { elts = modify_elt i f p.elts } ∷ ps
      else p ∷ modify_parts n i f ps

  abbrev pub of_parts : NgxList A → List (Part A) → NgxList A
  of_parts l [] = l
  of_parts l (p ∷ ps) = record { part = p; rest = ps }

  -- A write through the reference that an iterator of the list gives.
  unfoldable pub modify_at : Iter A → (A → A) → NgxList A → NgxList A
  modify_at it f l = of_parts l (modify_parts (length it.parts) it.count f (l.part ∷ l.rest))

  -- `prepare() = x`, which is `push(x)`. `ngx_list_push` is nginx's: the list with `x` in the new
  -- slot, or `none` where it returns null.
  unfoldable pub push :
      (ngx_list_push : A → NgxList A → Option (NgxList A)) → A → Cmd (NgxList A) (Unit {0})
  push ngx_list_push x l = elim (ngx_list_push x l) [
    | none ↦ raise ngx_error l
    | some l' ↦ ok tt l'
  ]

  -- `merge(l)` for another list: each of its elements is pushed here.
  unfoldable pub merge :
      ℕ → (A → NgxList A → Option (NgxList A)) → NgxList A → Cmd (NgxList A) (Unit {0})
  merge k ngx_list_push l = visit k (push ngx_list_push) l

  -- All elements, part after part.
  abbrev pub items_of : List (Part A) → List A
  items_of [] = []
  items_of (p ∷ ps) = p.elts ++ items_of ps

  abbrev pub items : NgxList A → List A
  items l = items_of (l.part ∷ l.rest)

  -- nginx's lists: the elements of a part are allocated, and every part but the first has some.
  abbrev pub Filled : List (Part A) → Type 0
  Filled [] = Unit {0}
  Filled (p ∷ ps) = (p.has_elts ≡ true) × (is_null (length p.elts) ≡ false) × Filled ps

  pub record IsValid (l : NgxList A) : Type 0 where
    pub first : l.part.has_elts ≡ true
    pub rest_empty : is_null (length l.part.elts) ≡ true → l.rest ≡ []
    pub filled : Filled l.rest

-- nginx's `ngx_list_push` adds one element behind the others.
abbrev pub PushesBack : {A : Type 0} → (A → NgxList A → Option (NgxList A)) → Type 0
PushesBack {A} ngx_list_push =
    (x : A) (l l' : NgxList A)
    → IsValid l
    → ngx_list_push x l ≡ some l'
    → IsValid l' × (items l' ≡ items l ++ x ∷ [])
