-- ===== src/Timer/Pool.antt =====
-- No event of ngxpp/NgxTimer.hpp serves two timers at a time.
use mathlib.Core.Path.{subst}
use ngx_cpp_dev.Base.{
  ==_iff, ℕ, suc, ◌+◌, ◌<◌, ◌≤◌, ◌==◌, ◌≡◌, Bool-cases, inl, inr, List, [], ◌∷◌, ◌++◌, none, arith,
  if◌then◌else◌,
}
use ngx_cpp_dev.Nginx.{Ptr}
use ngx_cpp_dev.Timer.{Timers, acquire, without, add, finish_call}

-- How often an event stands in a list.
abbrev pub count : Ptr → List Ptr → ℕ
count a [] = 0
count a (p ∷ ps) = if p == a then suc (count a ps) else count a ps

count-append : (a p : Ptr) (ps : List Ptr) → count a (ps ++ p ∷ []) ≡ count a ps + count a (p ∷ [])
count-append a p [] = omega arith
count-append a p (q ∷ qs) = ground (arith, count-append a p qs)

count-without :
    (a p : Ptr) (ps : List Ptr)
    → 0 < count p ps
    → count a (without p ps) + count a (p ∷ []) ≡ count a ps
count-without a p [] h = absurd (omega arith)
count-without a p (q ∷ qs) h = ground (arith, count-without a p qs)

acquire-count :
    (a fresh : Ptr) (pool pending : List Ptr)
    → count fresh pending ≡ 0
    → count a pool + count a pending ≤ 1
    → count a (acquire fresh pool).1 + count a ((acquire fresh pool).0 ∷ pending) ≤ 1
unfolding acquire
acquire-count a fresh [] pending unused h = elim (Bool-cases (fresh == a)) [
  | inl same ↦
      let gone = subst (λ p. count p pending ≡ 0) ((==_iff fresh a).0 same) unused in ground arith
  | inr other ↦ ground arith
]
acquire-count a fresh (p ∷ ps) pending unused h = ground arith

module _ {F : Type 0} where
  -- An event is in the pool once, or pending once, or neither.
  abbrev pub IsExclusive : Timers F → Type 0
  IsExclusive s = (a : Ptr) → count a s.pool + count a s.pending ≤ 1

  -- A timer is added, with an event that the factory has just made if it needs one; or the call for a
  -- pending event comes to its end.
  pub data Step (s : Timers F) : Timers F → Type 0 where
    adds :
        (fresh : Ptr) (ms : ℕ) (f : F)
        → count fresh s.pool ≡ 0
        → count fresh s.pending ≡ 0
        → Step s (add fresh ms f s)
    finishes : (p : Ptr) → 0 < count p s.pending → Step s (finish_call p s)

  pub data Reachable : Timers F → Type 0 where
    start : Reachable (record { pool = []; pending = []; events = λ a. none })
    step : {s t : Timers F} → Reachable s → Step s t → Reachable t

  add-IsExclusive :
      (fresh : Ptr) (ms : ℕ) (f : F) (s : Timers F)
      → count fresh s.pool ≡ 0
      → count fresh s.pending ≡ 0
      → IsExclusive s
      → IsExclusive (add fresh ms f s)
  unfolding add
  add-IsExclusive fresh ms f s idle unused h a = acquire-count a fresh s.pool s.pending unused (h a)

  finish_call-IsExclusive :
      (p : Ptr) (s : Timers F)
      → 0 < count p s.pending
      → IsExclusive s
      → IsExclusive (finish_call p s)
  unfolding finish_call
  finish_call-IsExclusive p s there h a =
      let grown = count-append a p s.pool in
      let shrunk = count-without a p s.pending there in omega (arith, h a)

  -- In every state that adding and firing timers can reach, an event is in the pool once, or pending
  -- once, or neither: no two timers share an event.
  pub Reachable-IsExclusive : (s : Timers F) → Reachable s → IsExclusive s
  Reachable-IsExclusive _ start = λ a. omega arith
  Reachable-IsExclusive _ (step {s} r (adds fresh ms f idle unused)) =
      add-IsExclusive fresh ms f s idle unused (Reachable-IsExclusive s r)
  Reachable-IsExclusive _ (step {s} r (finishes p there)) =
      finish_call-IsExclusive p s there (Reachable-IsExclusive s r)
