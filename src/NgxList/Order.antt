-- ===== src/NgxList/Order.antt =====
-- `NgxList::visit` and `NgxList::find` see the elements of every part, in order.
use ngx_cpp_dev.Base.{
  ◌∙◌, ℕ, zero, suc, ◌<◌, ◌≡◌, refl, ap, ◌⊎◌, inl, inr, Bool, true, false, List, [], ◌∷◌, ◌++◌,
  arith, length, All, Bool-cases,
}
use ngx_cpp_dev.Base.Run.{Run, Cmd, ok, for_each, and_then-congr}
use ngx_cpp_dev.Exception.{require}
use ngx_cpp_dev.NgxList.{
  Iter, NgxList, IsValid, begin, at_end, done, increment, dereference, visit_loop, visit, find_loop,
  find, items,
}
use ngx_cpp_dev.NgxList.Position.{
  remaining, IsPlaced, Advance, placed-cases, begin-remaining, begin-cases,
}

module _ {A S : Type 0} where
  -- A placed iterator reads its element.
  pub dereference-ok : (it : Iter A) (a : A) (s : S) → Advance it a → dereference it s ≡ ok a s
  unfolding dereference require
  dereference-ok it a s v = rw (v.has_data, v.reads)

  visit_loop-for_each :
      (k : ℕ) (v : A → Cmd S (Unit {0})) (it : Iter A) (s : S)
      → IsPlaced it
      → length (remaining it) < k
      → visit_loop k v it s ≡ for_each v (remaining it) s
  unfolding visit_loop
  visit_loop-for_each zero v it s here fuel = absurd (omega arith)
  visit_loop-for_each (suc k) v it s here fuel = elim (placed-cases it here) [
    | inl (stop, none_left) ↦ rw (stop, none_left)
    | inr (a, step) ↦
        rw (step.goes_on, step.rest, dereference-ok it a s step)
          (and_then-congr (v a s) λ _ s'.
            visit_loop-for_each k v (increment it) s' step.placed
              (omega (arith, ap length step.rest)))
  ]

  visit_loop-done :
      (k : ℕ) (v : A → Cmd S (Unit {0})) (it : Iter A) (s : S)
      → done it ≡ true
      → visit_loop (suc k) v it s ≡ ok tt s
  unfolding visit_loop
  visit_loop-done k v it s h = rw h

  -- `visit` calls its function on every element of a valid list, once and in order, and an
  -- exception of the function ends it. The fuel is more than the number of elements.
  pub visit-for_each :
      (k : ℕ) (v : A → Cmd S (Unit {0})) (l : NgxList A) (s : S)
      → IsValid l
      → length (items l) < k
      → visit k v l s ≡ for_each v (items l) s
  unfolding visit
  visit-for_each zero v l s valid fuel = absurd (omega arith)
  visit-for_each (suc k) v l s valid fuel = elim (begin-cases l valid) [
    | inl (stop, hollow) ↦ rw hollow (visit_loop-done k v (begin l) s stop)
    | inr here ↦
        visit_loop-for_each (suc k) v (begin l) s here (rw begin-remaining fuel)
        ∙ rw begin-remaining
  ]

module _ {A : Type 0} (p : A → Bool) where
  -- The iterator stands at the first element of `xs` that satisfies the predicate.
  pub record Finds (xs : List A) (it : Iter A) : Type 0 where
    pub before : List A
    pub hit : A
    pub after : List A
    pub split : xs ≡ before ++ hit ∷ after
    pub missed : All (λ x. p x ≡ false) before
    pub satisfies : p hit ≡ true
    pub rest : remaining it ≡ hit ∷ after
    pub step : Advance it hit

  abbrev pub FindResult : {S : Type 0} → List A → S → Run S (Iter A) → Type 0
  FindResult xs s r =
      ((r ≡ ok at_end s) × All (λ x. p x ≡ false) xs)
      ⊎ ((it : Iter A) × (r ≡ ok it s) × Finds xs it)

  Finds-cons : {x : A} {xs : List A} {it : Iter A} → p x ≡ false → Finds xs it → Finds (x ∷ xs) it
  Finds-cons {x} miss f = record {
    before = x ∷ f.before;
    hit = f.hit;
    after = f.after;
    split = ap (λ ys. x ∷ ys) f.split;
    missed = (miss, f.missed);
    satisfies = f.satisfies;
    rest = f.rest;
    step = f.step;
  }

  FindResult-cons :
      {S : Type 0} {x : A} {xs : List A} {s : S} {r : Run S (Iter A)}
      → p x ≡ false
      → FindResult xs s r
      → FindResult (x ∷ xs) s r
  FindResult-cons miss (inl (e, none_hit)) = inl (e, (miss, none_hit))
  FindResult-cons miss (inr (it, e, f)) = inr (it, e, Finds-cons miss f)

  find_loop-done :
      {S : Type 0} (k : ℕ) (it : Iter A) (s : S)
      → done it ≡ true
      → find_loop (suc k) p it s ≡ ok at_end s
  unfolding find_loop
  find_loop-done k it s h = rw h

  find_loop-FindResult :
      {S : Type 0} (k : ℕ) (it : Iter A) (s : S)
      → IsPlaced it
      → length (remaining it) < k
      → FindResult (remaining it) s (find_loop k p it s)
  unfolding find_loop
  find_loop-FindResult zero it s here fuel = absurd (omega arith)
  find_loop-FindResult (suc k) it s here fuel = elim (placed-cases it here) [
    | inl (stop, none_left) ↦ rw (stop, none_left) (inl (refl, tt))
    | inr (a, step) ↦ elim (Bool-cases (p a)) [
      | inl yes_a ↦
          rw (step.goes_on, dereference-ok it a s step, yes_a)
            (inr (
              it,
              refl,
              record {
                before = [];
                hit = a;
                after = remaining (increment it);
                split = step.rest;
                missed = tt;
                satisfies = yes_a;
                rest = step.rest;
                step = step;
              },
            ))
      | inr no_a ↦
          rw (step.goes_on, dereference-ok it a s step, no_a, step.rest)
            (FindResult-cons no_a (
              find_loop-FindResult k (increment it) s step.placed
                (omega (arith, ap length step.rest))))
    ]
  ]

  -- In a valid list `find` returns the iterator of the first element that satisfies the predicate,
  -- and the end if there is none; it changes nothing. The fuel is more than the number of elements.
  pub find-FindResult :
      {S : Type 0} (k : ℕ) (l : NgxList A) (s : S)
      → IsValid l
      → length (items l) < k
      → FindResult (items l) s (find k p l s)
  unfolding find begin
  find-FindResult zero l s valid fuel = absurd (omega arith)
  find-FindResult (suc k) l s valid fuel = elim (begin-cases l valid) [
    | inl (stop, hollow) ↦ rw hollow (inl (find_loop-done k (begin l) s stop, tt))
    | inr here ↦ find_loop-FindResult (suc k) (begin l) s here fuel
  ]
