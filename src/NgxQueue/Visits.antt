-- ===== src/NgxQueue/Visits.antt =====
-- The loops over a ring of ngxpp/NgxQueue.hpp, with iterators and with reverse iterators.
use mathlib.Core.List.{reverse}
use ngx_cpp_dev.Base.{
  zero, suc, length-append, length, Distinct, if◌then◌else◌, ◌<◌, ◌+◌, ℕ, ◌==◌, ◌≡◌, false, List,
  [], ◌∷◌, ◌++◌, member, arith,
}
use ngx_cpp_dev.Base.Run.{Cmd, out_of_fuel, for_each, ◌>>◌, pure, and_then-congr}
use ngx_cpp_dev.Nginx.{Ptr}
use ngx_cpp_dev.NgxQueue.{
  Queues, begin, end, rbegin, rend, equal, increment, decrement, insert, append, node_remove, merge,
}
use ngx_cpp_dev.NgxQueue.Links.{length-reverse, Follows, last_of, last_of-member}
use ngx_cpp_dev.NgxQueue.Merged.{Apart, merge-Holds}
use ngx_cpp_dev.NgxQueue.Ring.{
  Holds, insert-Holds, append-Holds, remove-Holds, next-first, Distinct-back,
}

module _ {Q : Type 0} (api : Queues Q) where
  module _ {S : Type 0} (v : Ptr → Cmd S (Unit {0})) where
    -- A loop from `cur` to the end, with fuel for its rounds.
    abbrev pub walk : ℕ → (h : Ptr) → Q → Ptr → Cmd S (Unit {0})
    walk zero h q cur = λ _. out_of_fuel
    walk (suc k) h q cur =
        let rest = walk k h q in
        if equal cur (end h) then pure tt else do v cur; rest (increment api q cur)

    -- A loop with reverse iterators, from the one with the base `cur` to `rend()`: such an iterator
    -- reads the node before its base.
    abbrev pub walk_back : ℕ → (h : Ptr) → Q → Ptr → Cmd S (Unit {0})
    walk_back zero h q cur = λ _. out_of_fuel
    walk_back (suc k) h q cur =
        let rest = walk_back k h q in
        if equal cur (rend api h q)
        then pure tt
        else do v (decrement api q cur); rest (decrement api q cur)

    -- Both loops over the ring of `h` return, and they visit `xs`, forwards and backwards.
    abbrev pub Visits : ℕ → Ptr → List Ptr → Q → S → Type 0
    Visits k h xs q s =
        (walk k h q (begin api h q) s ≡ for_each v xs s)
        × (walk_back k h q (rbegin h) s ≡ for_each v (reverse xs) s)

    walk-Follows :
        (k : ℕ) (h a : Ptr) (xs : List Ptr) (q : Q) (s : S)
        → Follows (api.next q) a xs h
        → member h xs ≡ false
        → length xs < k
        → walk k h q (api.next q a) s ≡ for_each v xs s
    unfolding equal end increment
    walk-Follows zero h a xs q s f out fuel = absurd (omega arith)
    walk-Follows (suc k) h a [] q s f out fuel = ground arith
    walk-Follows (suc k) h a (x ∷ xs) q s (here, f) out fuel =
        let ne : (x == h) ≡ false = ground arith in
        rw (here, ne)
          (and_then-congr (v x s) (λ u t. walk-Follows k h x xs q t f (ground arith) (omega arith)))

    walk_back-Follows :
        (k : ℕ) (h a : Ptr) (xs : List Ptr) (q : Q) (s : S)
        → Follows (api.prev q) a xs h
        → rend api h q ≡ last_of a xs
        → Distinct (a ∷ xs)
        → length xs < k
        → walk_back k h q a s ≡ for_each v xs s
    unfolding equal decrement
    walk_back-Follows zero h a xs q s f stop d fuel = absurd (omega arith)
    walk_back-Follows (suc k) h a [] q s f stop d fuel = ground arith
    walk_back-Follows (suc k) h a (x ∷ xs) q s (here, f) stop (once, d) fuel =
        let later = last_of-member x xs in
        let ne : (a == rend api h q) ≡ false = ground arith in
        rw (here, ne)
          (and_then-congr (v x s) (λ u t. walk_back-Follows k h x xs q t f stop d (omega arith)))

    Holds-Visits :
        (k : ℕ) (h : Ptr) (xs : List Ptr) (q : Q) (s : S)
        → Holds api h xs q
        → length xs < k
        → Visits k h xs q s
    unfolding begin rbegin end rend
    Holds-Visits k h xs q s r fuel = (
      walk-Follows k h h xs q s r.links r.distinct.0 fuel,
      walk_back-Follows k h h (reverse xs) q s r.back (next-first api h xs q r)
          (Distinct-back api h xs q r) (rw length-reverse fuel),
    )

    -- Loops over a ring return, and visit its nodes in order, the loops with reverse iterators in the
    -- opposite order: a node that is inserted comes first, one that is appended last, one that is
    -- removed not at all, the nodes of a ring that is merged come behind its own, and the others stay
    -- in order. The node that comes in is not in the ring, no node of a ring stands twice, the ring
    -- that is merged has nodes and shares none, and the fuel is more than the number of nodes
    -- afterwards.
    pub changes-Visits :
        (k : ℕ) (h x y n z : Ptr) (before after others : List Ptr) (q : Q) (s : S)
        → Holds api h (before ++ y ∷ after) q
        → member x (h ∷ (before ++ y ∷ after)) ≡ false
        → Holds api n (z ∷ others) q
        → Apart (h ∷ (before ++ y ∷ after)) (n ∷ z ∷ others)
        → suc (length (before ++ y ∷ after)) + length others < k
        → Visits k h (x ∷ (before ++ y ∷ after)) (insert api h x q) s
          × Visits k h ((before ++ y ∷ after) ++ x ∷ []) (append api h x q) s
          × Visits k h (before ++ after) (node_remove api y q) s
          × Visits k h ((before ++ y ∷ after) ++ z ∷ others) (merge api h n q) s
    changes-Visits k h x y n z before after others q s r new t apart fuel =
        let xs = before ++ y ∷ after in
        (
          Holds-Visits k h (x ∷ xs) (insert api h x q) s (insert-Holds api h x xs q r new)
              (omega arith),
          Holds-Visits k h (xs ++ x ∷ []) (append api h x q) s (append-Holds api h x xs q r new)
              (omega (arith, length-append xs (x ∷ []))),
          Holds-Visits k h (before ++ after) (node_remove api y q) s
              (remove-Holds api h y before after q r)
              (omega (arith, length-append before (y ∷ after), length-append before after)),
          Holds-Visits k h (xs ++ z ∷ others) (merge api h n q) s
              (merge-Holds api h n z xs others q r t apart)
              (omega (arith, length-append xs (z ∷ others))),
        )
