-- ===== src/Headers/Lookup.antt =====
-- What `has`, `operator[]` and `add` of ngxpp/NgxHeaders.hpp answer, in terms of the header list.
use ngx_cpp_dev.Base.{
  is_some, ℕ, ◌<◌, ◌≡◌, ◌⊎◌, inl, inr, refl, Bool, true, false, Option, none, some, List, [], ◌∷◌,
  ◌++◌, arith, if◌then◌else◌, length, All,
}
use ngx_cpp_dev.Base.Run.{ok}
use ngx_cpp_dev.Nginx.{NgxStr, TableElt, ngx_null_string}
use ngx_cpp_dev.NgxList.{NgxList, Iter, IsValid, items, at_end, equal}
use ngx_cpp_dev.NgxList.Order.{Finds, find-FindResult, dereference-ok}
use ngx_cpp_dev.NgxList.Position.{Advance}
use ngx_cpp_dev.Headers.{find, has, value_of}

module _ (iequals : NgxStr → NgxStr → Bool) where
  abbrev pub matches : NgxStr → TableElt → Bool
  matches key kv = iequals kv.key key

  -- The first header with the key.
  abbrev pub first_match : NgxStr → List TableElt → Option TableElt
  first_match key [] = none
  first_match key (kv ∷ kvs) = if matches key kv then some kv else first_match key kvs

  abbrev pub value_or_null : Option TableElt → NgxStr
  value_or_null none = ngx_null_string
  value_or_null (some kv) = kv.value

  first_match-none :
      (key : NgxStr) (kvs : List TableElt)
      → All (λ kv. matches key kv ≡ false) kvs
      → first_match key kvs ≡ none
  first_match-none key [] h = refl
  first_match-none key (kv ∷ kvs) h = rw h.0 (first_match-none key kvs h.1)

  pub first_match-some :
      (key : NgxStr) (before after : List TableElt) (hit : TableElt)
      → All (λ kv. matches key kv ≡ false) before
      → matches key hit ≡ true
      → first_match key (before ++ hit ∷ after) ≡ some hit
  first_match-some key [] after hit h e = rw e
  first_match-some key (kv ∷ before) after hit h e =
      rw h.0 (first_match-some key before after hit h.1 e)

  -- An iterator that reads an element is not the end.
  pub equal-at_end : {A : Type 0} (it : Iter A) (a : A) → Advance it a → equal it at_end ≡ false
  unfolding equal at_end
  equal-at_end it a v = ground (arith, v.has_data)

  pub equal-at_end_self : equal {A = TableElt} at_end at_end ≡ true
  unfolding equal at_end
  equal-at_end_self = refl

  -- The two outcomes of `find`, with what they say of the first match.
  pub find-cases :
      (k : ℕ) (key : NgxStr) (l : NgxList TableElt)
      → IsValid l
      → length (items l) < k
      → ((find iequals k key l ≡ ok at_end l) × (first_match key (items l) ≡ none))
        ⊎ ((it : Iter TableElt) × (f : Finds (matches key) (items l) it) × (find iequals k key l
              ≡ ok it l)
            × (first_match key (items l) ≡ some f.hit))
  unfolding find
  find-cases k key l v fuel = elim (find-FindResult (matches key) k l l v fuel) [
    | inl (e, missed) ↦ inl (e, first_match-none key (items l) missed)
    | inr (it, e, f) ↦
        inr
          (it, f, e, rw f.split (first_match-some key f.before f.after f.hit f.missed f.satisfies))
  ]

  -- `has` says whether a header of a valid list has the key. The fuel is more than the number of
  -- headers.
  pub has-first_match :
      (k : ℕ) (key : NgxStr) (l : NgxList TableElt)
      → IsValid l
      → length (items l) < k
      → has iequals k key l ≡ ok (is_some (first_match key (items l))) l
  unfolding has
  has-first_match k key l v fuel = elim (find-cases k key l v fuel) [
    | inl (e, m) ↦ rw (e, m, equal-at_end_self)
    | inr (it, f, e, m) ↦ rw (e, m, equal-at_end it f.hit f.step)
  ]

  -- `operator[]` returns the value of the first header of a valid list with the key, and the null
  -- string if none has it; no read is out of bounds. The fuel is more than the number of headers.
  pub value_of-first_match :
      (k : ℕ) (key : NgxStr) (l : NgxList TableElt)
      → IsValid l
      → length (items l) < k
      → value_of iequals k key l ≡ ok (value_or_null (first_match key (items l))) l
  unfolding value_of
  value_of-first_match k key l v fuel = elim (find-cases k key l v fuel) [
    | inl (e, m) ↦ rw (e, m, equal-at_end_self)
    | inr (it, f, e, m) ↦ rw (e, m, equal-at_end it f.hit f.step, dereference-ok it f.hit l f.step)
  ]
