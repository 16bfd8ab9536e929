-- ===== src/NgxList/Position.antt =====
-- Where an iterator of ngxpp/NgxList.hpp stands, and what it has still to visit.
use native.Mathlib.Numerals.{add-one}
use ngx_cpp_dev.Base.{
  drop-length, get_elem?-drop, ◌⊎◌, append-nil, length-eq-zero, sym, ℕ, suc, ◌+◌, ◌<◌, ◌≡◌, refl,
  ap, Bool, true, false, leb, some, List, [], ◌∷◌, ◌++◌, arith, length, drop, Bool-cases, inl, inr,
}
use ngx_cpp_dev.Nginx.{is_null}
use ngx_cpp_dev.NgxList.{
  Part, Iter, NgxList, begin, done, slot, increment, next_part, items_of, items, Filled, IsValid,
}

module _ {A : Type 0} where
  abbrev pub remaining_at : List (Part A) → ℕ → List A
  remaining_at [] i = []
  remaining_at (p ∷ ps) i = drop i p.elts ++ items_of ps

  -- The elements from the iterator's on.
  abbrev pub remaining : Iter A → List A
  remaining it = remaining_at it.parts it.count

  abbrev pub Stands : List (Part A) → Bool → ℕ → Type 0
  Stands [] d i = Unit {0}
  Stands (p ∷ ps) d i = (d ≡ true) × (i < length p.elts) × Filled ps

  -- The iterator stands at an element, or has run off the last part.
  abbrev pub IsPlaced : Iter A → Type 0
  IsPlaced it = Stands it.parts it.has_data it.count

  -- What one step of a placed iterator does.
  pub record Advance (it : Iter A) (a : A) : Type 0 where
    pub goes_on : done it ≡ false
    pub has_data : it.has_data ≡ true
    pub reads : slot it.parts it.count ≡ some a
    pub rest : remaining it ≡ a ∷ remaining (increment it)
    pub placed : IsPlaced (increment it)

  next_part-rest :
      (ps : List (Part A))
      → Filled ps
      → (remaining (next_part ps) ≡ items_of ps) × IsPlaced (next_part ps)
  next_part-rest [] f = (refl, tt)
  next_part-rest (p ∷ ps) f = (refl, ground arith)

  -- A placed iterator whose parts have not run out reads an element and steps to the next.
  advance :
      (p : Part A) (ps : List (Part A)) (d : Bool) (i : ℕ)
      → Stands (p ∷ ps) d i
      → (a : A) × Advance (record { parts = p ∷ ps; has_data = d; count = i }) a
  unfolding done increment
  advance p ps d i h =
      let (a, e, f) = get_elem?-drop p.elts i h.1 in
      let after = next_part-rest ps h.2 in
      (
        a,
        record {
          goes_on = ground arith;
          has_data = h.0;
          reads = e;
          rest = elim (Bool-cases (leb (length p.elts) (i + 1))) [
            | inl over ↦
                rw (h.0, over, f, drop-length p.elts (suc i) (ground arith))
                  (ap (λ xs. a ∷ xs) (sym after.0))
            | inr more ↦ rw (h.0, more, f, add-one i)
          ];
          placed = elim (Bool-cases (leb (length p.elts) (i + 1))) [
            | inl over ↦ rw (h.0, over) after.1
            | inr more ↦ rw (h.0, more) (refl, ground arith, h.2)
          ];
        },
      )

  placed_at-cases :
      (ps : List (Part A)) (d : Bool) (i : ℕ) {it : Iter A}
      → it ≡ record { parts = ps; has_data = d; count = i }
      → Stands ps d i
      → ((done it ≡ true) × (remaining it ≡ [])) ⊎ ((a : A) × Advance it a)
  unfolding done
  placed_at-cases [] d i e h = inl (rw e, rw e)
  placed_at-cases (p ∷ ps) d i e h = inr (rw e (advance p ps d i h))

  -- A placed iterator is at the end, or reads an element and steps to the next.
  pub placed-cases :
      (it : Iter A)
      → IsPlaced it
      → ((done it ≡ true) × (remaining it ≡ [])) ⊎ ((a : A) × Advance it a)
  placed-cases it h = placed_at-cases it.parts it.has_data it.count refl h

  -- The iterator that `begin` returns is placed at the first element.
  pub begin-IsPlaced :
      (l : NgxList A) → IsValid l → (is_null (length l.part.elts) ≡ false) → IsPlaced (begin l)
  unfolding begin
  begin-IsPlaced l v some_elts = (v.first, ground arith, v.filled)

  pub begin-remaining : (l : NgxList A) → remaining (begin l) ≡ items l
  unfolding begin
  begin-remaining l = refl

  begin-done : (l : NgxList A) → is_null (length l.part.elts) ≡ true → done (begin l) ≡ true
  unfolding begin done
  begin-done l h = ground arith

  pub items-empty : (l : NgxList A) → IsValid l → is_null (length l.part.elts) ≡ true → items l ≡ []
  items-empty l v none_here =
      rw (v.rest_empty none_here, append-nil) (length-eq-zero l.part.elts none_here)

  -- The first iterator of a valid list is at the end if the list has no elements, else placed.
  pub begin-cases :
      (l : NgxList A) → IsValid l → ((done (begin l) ≡ true) × (items l ≡ [])) ⊎ IsPlaced (begin l)
  begin-cases l v = elim (Bool-cases (is_null (length l.part.elts))) [
    | inl hollow ↦ inl (begin-done l hollow, items-empty l v hollow)
    | inr some_elts ↦ inr (begin-IsPlaced l v some_elts)
  ]
