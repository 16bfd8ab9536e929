-- ===== src/HttpTest/Containers/Range.antt =====
-- What a range-for loop over ngxpp/NgxList.hpp visits.
use ngx_cpp_dev.Nginx.{is_null}
use ngx_cpp_dev.Base.{
  ◌+◌, leb, some, ap, ℕ, zero, suc, ◌<◌, ◌≡◌, refl, Bool, true, false, inl, inr, List, [], ◌∷◌,
  arith, length, Bool-cases,
}
use ngx_cpp_dev.Base.Run.{Cmd, for_each, and_then-congr, fault}
use ngx_cpp_dev.NgxList.{
  done, NgxList, Iter, Part, begin, at_end, equal, increment, increment_at, next_part, dereference,
  IsValid, items, slot,
}
use ngx_cpp_dev.NgxList.Position.{remaining, begin-IsPlaced, IsPlaced, placed-cases}
use ngx_cpp_dev.NgxList.Order.{dereference-ok}
use ngx_cpp_dev.HttpTest.Containers.{range_for}

module _ {A : Type 0} where
  -- An iterator with no part left is the end.
  abbrev pub Ends : List (Part A) → Bool → ℕ → Type 0
  Ends [] d i = (d ≡ false) × (i ≡ 0)
  Ends (p ∷ ps) d i = Unit {0}

  Ends-next_part :
      (ps : List (Part A)) → Ends (next_part ps).parts (next_part ps).has_data (next_part ps).count
  Ends-next_part [] = (refl, refl)
  Ends-next_part (p ∷ ps) = tt

  Ends-increment_at :
      (ps : List (Part A)) (d : Bool) (i : ℕ) {a : A}
      → slot ps i ≡ some a
      → Ends (increment_at ps d i).parts (increment_at ps d i).has_data (increment_at ps d i).count
  Ends-increment_at [] d i e = cc
  Ends-increment_at (p ∷ ps) d i e = elim (Bool-cases d) [
    | inr no_data ↦ rw no_data tt
    | inl has_data ↦ elim (Bool-cases (leb (length p.elts) (i + 1))) [
      | inl last ↦ rw (has_data, last) (Ends-next_part ps)
      | inr within ↦ rw (has_data, within) tt
    ]
  ]

  abbrev IsEnded : Iter A → Type 0
  IsEnded it = Ends it.parts it.has_data it.count

  pub equal-reads :
      (ps : List (Part A)) (d : Bool) (i : ℕ) {a : A}
      → slot ps i ≡ some a
      → equal (record { parts = ps; has_data = d; count = i }) at_end ≡ false
  unfolding equal at_end
  equal-reads [] d i e = cc
  equal-reads (p ∷ ps) d i e = ground arith

  equal-done :
      (ps : List (Part A)) (d : Bool) (i : ℕ)
      → Ends ps d i
      → done (record { parts = ps; has_data = d; count = i }) ≡ true
      → IsPlaced (record { parts = ps; has_data = d; count = i })
      → equal (record { parts = ps; has_data = d; count = i }) at_end ≡ true
  unfolding equal at_end done
  equal-done [] d i (no_data, start) stop here = rw (no_data, start) refl
  equal-done (p ∷ ps) d i ends stop here = ground arith

  module _ {S : Type 0} (v : A → Cmd S (Unit {0})) where
    range_for-remaining :
        (k : ℕ) (it : Iter A) (s : S)
        → IsPlaced it
        → IsEnded it
        → length (remaining it) < k
        → range_for k v it s ≡ for_each v (remaining it) s
    unfolding range_for increment
    range_for-remaining zero it s here ends fuel = absurd (omega arith)
    range_for-remaining (suc k) it s here ends fuel = elim (placed-cases it here) [
      | inl (stop, hollow) ↦
          rw (equal-done it.parts it.has_data it.count ends stop here, hollow) refl
      | inr (a, step) ↦
          rw
            (
              equal-reads it.parts it.has_data it.count step.reads,
              dereference-ok it a s step,
              step.rest,
            )
            (and_then-congr (v a s) (λ u t.
              range_for-remaining k (increment it) t step.placed
                (Ends-increment_at it.parts it.has_data it.count step.reads)
                (let e = ap length step.rest in omega arith)))
    ]

    -- A range-for loop over a valid list that is not empty visits every element once, in order.
    pub range_for-items :
        (k : ℕ) (l : NgxList A) (s : S)
        → IsValid l
        → is_null (length l.part.elts) ≡ false
        → length (items l) < k
        → range_for k v (begin l) s ≡ for_each v (items l) s
    unfolding begin
    range_for-items k l s valid some_elts fuel =
        range_for-remaining k (begin l) s (begin-IsPlaced l valid some_elts) tt fuel

    -- Over an empty list the loop reads an element that is not there.
    pub range_for-empty :
        (k : ℕ) (p : Part A) (s : S)
        → p.elts ≡ []
        → p.has_elts ≡ true
        → range_for (suc k) v (begin (record { part = p; rest = [] })) s ≡ fault
    unfolding range_for begin equal at_end dereference
    range_for-empty k p s hollow allocated = rw (hollow, allocated) refl
