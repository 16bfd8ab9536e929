-- ===== src/NgxList/Update.antt =====
-- Writes to a list of ngxpp/NgxList.hpp: through an iterator, by `push`, `merge` and `clear`.
use mathlib.Core.List.{tail-eq_of_cons-eq, append_cancel_right}
use ngx_cpp_dev.Base.{
  append-nil, drop, ℕ, zero, suc, ◌+◌, ◌≡◌, refl, sym, ap, ◌∙◌, ◌⊎◌, inl, inr, Bool, not, leb, List,
  [], ◌∷◌, ◌++◌, some, arith, length, Bool-cases, append_assoc, get_elem?, length-append,
}
use ngx_cpp_dev.Base.Run.{and_then-eq-ok, ok}
use ngx_cpp_dev.NgxList.{
  IsValid, Filled, increment_at, Part, Iter, NgxList, at_end, done, slot, increment, dereference,
  find_loop, items, items_of, modify_elt, modify_parts, modify_at, of_parts, next_part,
}
use ngx_cpp_dev.NgxList.Position.{remaining}

module _ {A : Type 0} where
  -- The iterator runs over a tail of these parts.
  abbrev pub Within : List (Part A) → Iter A → Type 0
  Within L it = (front : List (Part A)) × (L ≡ front ++ it.parts)

  next_part-parts : (ps : List (Part A)) → (next_part ps).parts ≡ ps
  next_part-parts [] = refl
  next_part-parts (p ∷ ps) = refl

  increment_at-parts :
      (ps : List (Part A)) (d : Bool) (i : ℕ)
      → ((increment_at ps d i).parts ≡ ps) ⊎ ((p : Part A) × (ps ≡ p ∷ (increment_at ps d i).parts))
  increment_at-parts [] d i = inl refl
  increment_at-parts (p ∷ ps) d i = elim (Bool-cases (not d)) [
    | inl stuck ↦ rw stuck (inl refl)
    | inr free ↦ elim (Bool-cases (leb (length p.elts) (i + 1))) [
      | inl over ↦ rw (free, over) (inr (p, ap (λ x. p ∷ x) (sym (next_part-parts ps))))
      | inr more ↦ rw (free, more) (inl refl)
    ]
  ]

  increment-Within : (L : List (Part A)) (it : Iter A) → Within L it → Within L (increment it)
  unfolding increment
  increment-Within L it (front, w) = elim (increment_at-parts it.parts it.has_data it.count) [
    | inl same ↦ (front, rw same w)
    | inr (p, next) ↦ (front ++ p ∷ [], rw append_assoc (w ∙ ap (λ x. front ++ x) next))
  ]

  Within-at_end : (L : List (Part A)) (r : Iter A) → r ≡ at_end → Within L r
  unfolding at_end
  Within-at_end L r e = (L, rw (e, append-nil))

  -- Whatever `find` returns runs over a tail of the parts that it began with.
  pub find_loop-Within :
      {S : Type 0} (k : ℕ) (p : A → Bool) (L : List (Part A)) (it r : Iter A) (s t : S)
      → Within L it
      → find_loop k p it s ≡ ok r t
      → Within L r
  unfolding find_loop
  find_loop-Within zero p L it r s t w e = cc
  find_loop-Within (suc k) p L it r s t w e = elim (Bool-cases (done it)) [
    | inl stop ↦ Within-at_end L r (let e' = (rw stop at e) in cc)
    | inr go ↦
        let (a, s', _, e') = and_then-eq-ok (dereference it s) _ (rw go at e) in
        elim (Bool-cases (p a)) [
          | inl hit ↦ let same = (rw hit at e') in let back : r ≡ it = cc in rw back w
          | inr miss ↦
              find_loop-Within k p L (increment it) r s' t (increment-Within L it w) (rw miss at e')
        ]
  ]

  get_elem?-split :
      (xs : List A) (i : ℕ) {a : A} (f : A → A)
      → get_elem? xs i ≡ some a
      → (before : List A) × (xs ≡ before ++ a ∷ drop (suc i) xs)
        × (drop i xs ≡ a ∷ drop (suc i) xs)
        × (modify_elt i f xs ≡ before ++ f a ∷ drop (suc i) xs)
  get_elem?-split [] i f e = cc
  get_elem?-split (x ∷ xs) zero f e = ([], ground arith, ground arith, ground arith)
  get_elem?-split (x ∷ xs) (suc i) f e =
      let (before, whole, tail, written) = get_elem?-split xs i f e in
      (x ∷ before, ap (λ ys. x ∷ ys) whole, tail, ap (λ ys. x ∷ ys) written)

  modify_parts-append :
      (front : List (Part A)) (p : Part A) (ps : List (Part A)) (i : ℕ) (f : A → A)
      → modify_parts (suc (length ps)) i f (front ++ p ∷ ps)
        ≡ front ++ record p { elts = modify_elt i f p.elts } ∷ ps
  unfolding modify_parts
  modify_parts-append [] p ps i f = ground arith
  modify_parts-append (x ∷ front) p ps i f =
      ground (arith, length-append front (p ∷ ps), modify_parts-append front p ps i f)

  items_of-append : (xs ys : List (Part A)) → items_of (xs ++ ys) ≡ items_of xs ++ items_of ys
  items_of-append [] ys = refl
  items_of-append (x ∷ xs) ys = rw (items_of-append xs ys, append_assoc)

  items-of_parts :
      (l : NgxList A) (front : List (Part A)) (p : Part A) (ps : List (Part A))
      → items (of_parts l (front ++ p ∷ ps)) ≡ items_of (front ++ p ∷ ps)
  items-of_parts l [] p ps = refl
  items-of_parts l (x ∷ front) p ps = refl

  items_of-focus :
      (front : List (Part A)) (p : Part A) (ps : List (Part A)) (before after : List A) (a : A)
      → p.elts ≡ before ++ a ∷ after
      → items_of (front ++ p ∷ ps) ≡ (items_of front ++ before) ++ a ∷ (after ++ items_of ps)
  items_of-focus front p ps before after a e = rw (items_of-append, e) (simp append_assoc)

  modify_at-split :
      (l : NgxList A) (f : A → A) (front : List (Part A)) (p : Part A) (ps : List (Part A)) (i : ℕ)
      {a : A} (before after : List A)
      → l.part ∷ l.rest ≡ front ++ p ∷ ps
      → get_elem? p.elts i ≡ some a
      → drop i p.elts ++ items_of ps ≡ a ∷ after
      → items l ≡ before ++ a ∷ after
      → items (of_parts l (modify_parts (suc (length ps)) i f (l.part ∷ l.rest)))
        ≡ before ++ f a ∷ after
  modify_at-split l f front p ps i {a} before after parts e r split =
      let (near, whole, tail, written) = get_elem?-split p.elts i f e in
      let rest : drop (suc i) p.elts ++ items_of ps ≡ after = tail-eq_of_cons-eq (rw tail at r) in
      let back : before ≡ items_of front ++ near =
        append_cancel_right before (items_of front ++ near) (a ∷ after) (
          sym split
          ∙ ap items_of parts
          ∙ items_of-focus front p ps near (drop (suc i) p.elts) a whole
          ∙ ap (λ x. (items_of front ++ near) ++ a ∷ x) rest) in
      rw (parts, modify_parts-append front p ps i f, items-of_parts)
        (items_of-focus front _ ps near (drop (suc i) p.elts) (f a) written
          ∙ ap (λ x. (items_of front ++ near) ++ f a ∷ x) rest
          ∙ ap (λ x. x ++ f a ∷ after) (sym back))

  modify_at-parts :
      (l : NgxList A) (f : A → A) (qs : List (Part A)) (it : Iter A) {a : A} (before after : List A)
      → it.parts ≡ qs
      → Within (l.part ∷ l.rest) it
      → slot it.parts it.count ≡ some a
      → remaining it ≡ a ∷ after
      → items l ≡ before ++ a ∷ after
      → items (modify_at it f l) ≡ before ++ f a ∷ after
  unfolding modify_at
  modify_at-parts l f [] it before after e (front, w) reads r split =
      absurd (let reads' = (rw e at reads) in cc)
  modify_at-parts l f (p ∷ ps) it before after e (front, w) reads r split = rw e (
      modify_at-split l f front p ps it.count before after (rw e at w) (rw e at reads) (rw e at r)
        split)

  -- A write through an iterator that reads `a` changes that element of the list and no other.
  pub modify_at-items :
      (l : NgxList A) (f : A → A) (it : Iter A) {a : A} (before after : List A)
      → Within (l.part ∷ l.rest) it
      → slot it.parts it.count ≡ some a
      → remaining it ≡ a ∷ after
      → items l ≡ before ++ a ∷ after
      → items (modify_at it f l) ≡ before ++ f a ∷ after
  modify_at-items l f it before after = modify_at-parts l f it.parts it before after refl

  length-modify_elt : (i : ℕ) (f : A → A) (xs : List A) → length (modify_elt i f xs) ≡ length xs
  length-modify_elt i f [] = refl
  length-modify_elt zero f (x ∷ xs) = refl
  length-modify_elt (suc i) f (x ∷ xs) = ap suc (length-modify_elt i f xs)

  modify_parts-Filled :
      (n i : ℕ) (f : A → A) (ps : List (Part A)) → Filled ps → Filled (modify_parts n i f ps)
  unfolding modify_parts
  modify_parts-Filled n i f [] h = tt
  modify_parts-Filled n i f (p ∷ ps) h =
      ground (arith, length-modify_elt i f p.elts, modify_parts-Filled n i f ps h.2)

  -- A write to an element keeps the list valid.
  pub modify_at-IsValid :
      (it : Iter A) (f : A → A) (l : NgxList A) → IsValid l → IsValid (modify_at it f l)
  unfolding modify_at modify_parts
  modify_at-IsValid it f l v = ground (
    arith,
    length-modify_elt it.count f l.part.elts,
    modify_parts-Filled (length it.parts) it.count f l.rest v.filled,
  )
