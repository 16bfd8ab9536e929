-- ===== src/NgxQueue/Ring.antt =====
-- The rings of ngxpp/NgxQueue.hpp, and what insertion and removal make of them.
use mathlib.Core.List.{reverse, reverse-cons, reverse-reverse, reverse-append}
use ngx_cpp_dev.Base.{
  Distinct, ◌==◌, ◌≡◌, ◌∙◌, refl, false, List, [], ◌∷◌, ◌++◌, member, arith, append_assoc,
}
use ngx_cpp_dev.Nginx.{Ptr}
use ngx_cpp_dev.NgxQueue.{Queues, init, insert, append, node_remove}
use ngx_cpp_dev.NgxQueue.Links.{
  Follows, Follows-same, Follows-first, Follows-from, Follows-with_head, Follows-with_tail,
  Follows-without, last_of, Distinct-snoc, Distinct-reverse, member-reverse, Distinct-without,
  member-differs,
}

module _ {Q : Type 0} (api : Queues Q) where
  -- The ring of `h` holds the nodes `xs`, in order; none of them stands twice.
  pub record Holds (h : Ptr) (xs : List Ptr) (q : Q) : Type 0 where
    pub links : Follows (api.next q) h xs h
    pub back : Follows (api.prev q) h (reverse xs) h
    pub distinct : Distinct (h ∷ xs)

  pub init-Holds : (h : Ptr) (q : Q) → Holds h [] (init api h q)
  unfolding init
  init-Holds h q = record {
    links = api.next-init h q;
    back = api.prev-init h q;
    distinct = (refl, tt);
  }

  -- The nodes before and after the head are the last and the first of the ring.
  pub prev-last : (h : Ptr) (xs : List Ptr) (q : Q) → Holds h xs q → api.prev q h ≡ last_of h xs
  prev-last h xs q r = Follows-first (api.prev q) h h xs r.back

  pub next-first :
      (h : Ptr) (xs : List Ptr) (q : Q) → Holds h xs q → api.next q h ≡ last_of h (reverse xs)
  next-first h xs q r = Follows-first (api.next q) h h (reverse xs) (rw reverse-reverse r.links)

  pub Distinct-back : (h : Ptr) (xs : List Ptr) (q : Q) → Holds h xs q → Distinct (h ∷ reverse xs)
  Distinct-back h xs q r = (member-reverse h xs r.distinct.0, Distinct-reverse xs r.distinct.1)

  new-back :
      (h x : Ptr) (xs : List Ptr) → member x (h ∷ xs) ≡ false → member x (h ∷ reverse xs) ≡ false
  new-back h x xs new = ground (arith, member-reverse x xs (ground arith))

  pub append-Holds :
      (h x : Ptr) (xs : List Ptr) (q : Q)
      → Holds h xs q
      → member x (h ∷ xs) ≡ false
      → Holds h (xs ++ x ∷ []) (append api h x q)
  unfolding append
  append-Holds h x xs q r new =
      let ne : (x == h) ≡ false = ground arith in
      record {
        links =
            Follows-same h h (xs ++ x ∷ [])
              (Follows-with_tail (api.next q) h x h xs r.links r.distinct new)
              (λ b i. api.next-insert_tail h x q b ne ∙ ground (arith, prev-last h xs q r));
        back = rw (reverse-append xs (x ∷ [])) (
            Follows-same h h (x ∷ reverse xs)
              (Follows-with_head (api.prev q) h x (reverse xs) r.back (Distinct-back h xs q r)
                (new-back h x xs new))
              (λ b i. api.prev-insert_tail h x q b ne));
        distinct = Distinct-snoc x (h ∷ xs) r.distinct new;
      }

  pub insert-Holds :
      (h x : Ptr) (xs : List Ptr) (q : Q)
      → Holds h xs q
      → member x (h ∷ xs) ≡ false
      → Holds h (x ∷ xs) (insert api h x q)
  unfolding insert
  insert-Holds h x xs q r new =
      let ne : (x == h) ≡ false = ground arith in
      record {
        links =
            Follows-same h h (x ∷ xs) (Follows-with_head (api.next q) h x xs r.links r.distinct new)
              (λ b i. api.next-insert_after h x q b ne);
        back = rw reverse-cons (
            Follows-same h h (reverse xs ++ x ∷ [])
              (Follows-with_tail (api.prev q) h x h (reverse xs) r.back (Distinct-back h xs q r)
                (new-back h x xs new))
              (λ b i. api.prev-insert_after h x q b ne ∙ ground (arith, next-first h xs q r)));
        distinct = (ground (arith, r.distinct.0), (ground arith, r.distinct.1));
      }

  reverse-around :
      (x : Ptr) (before after : List Ptr)
      → reverse (before ++ x ∷ after) ≡ reverse after ++ x ∷ reverse before
  reverse-around x before after = rw (reverse-append before (x ∷ after), reverse-cons, append_assoc)

  pub remove-Holds :
      (h x : Ptr) (before after : List Ptr) (q : Q)
      → Holds h (before ++ x ∷ after) q
      → Holds h (before ++ after) (node_remove api x q)
  unfolding node_remove
  remove-Holds h x before after q r =
      let back = rw (reverse-around x before after) at r.back in
      let (distinct, out) = Distinct-without x (h ∷ before) after r.distinct in
      let apart : Distinct (h ∷ (reverse after ++ x ∷ reverse before)) =
        rw (reverse-around x before after) at (Distinct-back h (before ++ x ∷ after) q r) in
      let out' = (Distinct-without x (h ∷ reverse after) (reverse before) apart).1 in
      let p : api.prev q x ≡ last_of h before =
        Follows-first (api.prev q) x h before
          (Follows-from (api.prev q) h x h (reverse after) (reverse before) back) in
      let n : api.next q x ≡ last_of h (reverse after) =
        Follows-first (api.next q) x h (reverse after)
          (rw reverse-reverse (Follows-from (api.next q) h x h before after r.links)) in
      record {
        links =
            Follows-same h h (before ++ after)
              (Follows-without (api.next q) h x h before after r.links r.distinct)
              (λ b i.
                api.next-remove x q b (member-differs b x (h ∷ (before ++ after)) i out) ∙ rw p);
        back = rw (reverse-append before after) (
            Follows-same h h (reverse after ++ reverse before)
              (Follows-without (api.prev q) h x h (reverse after) (reverse before) back apart)
              (λ b i.
                api.prev-remove x q b
                  (member-differs b x (h ∷ (reverse after ++ reverse before)) i out')
                ∙ rw n));
        distinct = distinct;
      }
