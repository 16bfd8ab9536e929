-- ===== src/NgxList/Growth.antt =====
-- What `push` and `merge` of ngxpp/NgxList.hpp add, and what stays when nginx is out of memory.
use ngx_cpp_dev.Base.{
  ℕ, ◌<◌, ◌≡◌, refl, none, ◌⊎◌, inl, inr, List, [], ◌∷◌, ◌++◌, Option, length, append_assoc,
  append-nil, Option-cases,
}
use ngx_cpp_dev.Base.Run.{Run, ok, raised, for_each}
use ngx_cpp_dev.Nginx.{ngx_error}
use ngx_cpp_dev.Exception.{raise, exception_of}
use ngx_cpp_dev.NgxList.{NgxList, IsValid, PushesBack, items, push, merge}
use ngx_cpp_dev.NgxList.Order.{visit-for_each}

module _ {A : Type 0} (ngx_list_push : A → NgxList A → Option (NgxList A)) where
  -- All of `xs` was pushed, or a first part of them and nginx had no memory for the next.
  abbrev pub Pushed : NgxList A → List A → Run (NgxList A) (Unit {0}) → Type 0
  Pushed l xs r =
      ((l' : NgxList A) × (r ≡ ok tt l') × IsValid l' × (items l' ≡ items l ++ xs))
      ⊎ ((l' : NgxList A) × (first : List A) × (x : A) × (rest : List A) × (r
            ≡ raised (exception_of ngx_error) l')
          × IsValid l'
          × (xs ≡ first ++ x ∷ rest)
          × (items l' ≡ items l ++ first)
          × (ngx_list_push x l' ≡ none))

  pub for_each-Pushed :
      (xs : List A) (l : NgxList A)
      → PushesBack ngx_list_push
      → IsValid l
      → Pushed l xs (for_each (push ngx_list_push) xs l)
  unfolding push raise
  for_each-Pushed [] l law v = inl (l, refl, v, rw append-nil)
  for_each-Pushed (x ∷ xs) l law v = elim (Option-cases (ngx_list_push x l)) [
    | inl full ↦ rw (full, push) (inr (l, [], x, xs, refl, v, refl, rw append-nil, full))
    | inr (l', e) ↦
        let (v', grown) = law x l l' v e in
        rw (e, push)
          (elim (for_each-Pushed xs l' law v') [
            | inl (t, r, w, g) ↦ inl (t, r, w, rw (g, grown) (append_assoc (items l) (x ∷ []) xs))
            | inr (t, first, y, rest, r, w, split, g, out) ↦ inr (
              t,
              x ∷ first,
              y,
              rest,
              r,
              w,
              rw split,
              rw (g, grown) (append_assoc (items l) (x ∷ []) first),
              out,
            )
          ])
  ]

  -- `merge` of one valid list with another pushes the other's elements in order and keeps the list
  -- valid; where `ngx_list_push` has no memory it throws, and those
  -- that were pushed before stay. `ngx_list_push` adds one element
  -- behind the others, and the fuel is more than the number of elements.
  pub merge-Pushed :
      (k : ℕ) (l other : NgxList A)
      → PushesBack ngx_list_push
      → IsValid l
      → IsValid other
      → length (items other) < k
      → Pushed l (items other) (merge k ngx_list_push other l)
  unfolding merge
  merge-Pushed k l other law v w fuel =
      rw (visit-for_each k (push ngx_list_push) other l w fuel)
        (for_each-Pushed (items other) l law v)
