-- ===== src/NgxQueue/Merged.antt =====
-- What `merge` of ngxpp/NgxQueue.hpp makes of two rings.
use mathlib.Core.List.{reverse, reverse-cons, reverse-append}
use ngx_cpp_dev.Base.{
  Distinct, if◌then◌else◌, ◌==◌, ◌≡◌, ◌∙◌, refl, true, false, List, [], ◌∷◌, ◌++◌, member, arith,
  append-nil, sym, Bool-cases, inl, inr,
}
use ngx_cpp_dev.Nginx.{Ptr}
use ngx_cpp_dev.NgxQueue.{Queues, merge}
use ngx_cpp_dev.NgxQueue.Links.{
  Follows, Follows-same, last_of, last_of-member, member-differs, member-reverse,
}
use ngx_cpp_dev.NgxQueue.Ring.{Holds, prev-last, next-first, Distinct-back}

-- A chain whose last link leads on into another.
Follows-then :
    (f f' : Ptr → Ptr) (a c d : Ptr) (xs ws : List Ptr)
    → Follows f a xs c
    → Distinct (a ∷ xs)
    → ((b : Ptr) → member b (a ∷ xs) ≡ true → (b == last_of a xs) ≡ false → f' b ≡ f b)
    → Follows f' (last_of a xs) ws d
    → Follows f' a (xs ++ ws) d
Follows-then f f' a c d [] ws e own same rest = rest
Follows-then f f' a c d (x ∷ xs) ws (here, e) (once, own) same rest =
    let later = last_of-member x xs in
    (
      same a (ground arith) (ground arith) ∙ here,
      Follows-then f f' x c d xs ws e own (λ b i ne. same b (ground arith) ne) rest,
    )

-- A chain that is reached from somewhere else.
Follows-restart :
    (f f' : Ptr → Ptr) (a e c : Ptr) (ws : List Ptr)
    → Follows f e ws c
    → f' a ≡ f e
    → ((b : Ptr) → member b ws ≡ true → f' b ≡ f b)
    → Follows f' a ws c
Follows-restart f f' a e c [] end first same = first ∙ end
Follows-restart f f' a e c (w ∷ ws) (here, rest) first same =
    (first ∙ here, Follows-same c w ws rest same)

snoc-cons : (xs : List Ptr) (y : Ptr) → (z : Ptr) × (zs : List Ptr) × (xs ++ y ∷ [] ≡ z ∷ zs)
snoc-cons [] y = (y, [], refl)
snoc-cons (x ∷ xs) y = (x, xs ++ y ∷ [], refl)

-- No node of one list is in the other.
abbrev pub Apart : List Ptr → List Ptr → Type 0
Apart xs ys = (b : Ptr) → member b xs ≡ true → member b ys ≡ false

member-Apart :
    (b c : Ptr) (xs ys : List Ptr)
    → Apart xs ys
    → member b xs ≡ true
    → member c ys ≡ true
    → (b == c) ≡ false
member-Apart b c xs ys apart i j = let ne = member-differs c b ys j (apart b i) in ground arith

member-neither :
    (b : Ptr) (xs ys : List Ptr)
    → member b xs ≡ false
    → member b ys ≡ false
    → member b (xs ++ ys) ≡ false
member-neither b [] ys i j = j
member-neither b (x ∷ xs) ys i j =
    let later = member-neither b xs ys (ground arith) j in ground arith

Distinct-append : (xs ys : List Ptr) → Distinct xs → Distinct ys → Apart xs ys → Distinct (xs ++ ys)
Distinct-append [] ys d e apart = e
Distinct-append (x ∷ xs) ys (once, d) e apart = (
  member-neither x xs ys once (apart x (ground arith)),
  Distinct-append xs ys d e (λ b i. apart b (ground arith)),
)

Apart-back : (y : Ptr) (xs ys : List Ptr) → Apart xs ys → member y ys ≡ true → member y xs ≡ false
Apart-back y xs ys apart i = elim (Bool-cases (member y xs)) [
  | inr out ↦ out
  | inl both ↦ absurd (let out = apart y both in cc)
]

module _ {Q : Type 0} (api : Queues Q) where
  merge-links :
      (h n y : Ptr) (xs ys : List Ptr) (q : Q)
      → Holds api h xs q
      → Holds api n (y ∷ ys) q
      → Apart (h ∷ xs) (n ∷ y ∷ ys)
      → Follows (api.next (merge api h n q)) h (xs ++ y ∷ ys) h
  unfolding merge
  merge-links h n y xs ys q r t apart =
      let full : (api.next q n == n) ≡ false = ground (arith, t.links.0, t.distinct.0) in
      let law : (a : Ptr)
          → api.next (api.add h n q) a
            ≡ (if a == last_of y ys then h else if a == last_of h xs then y else api.next q a) =
        λ a.
          api.next-add h n q a full
          ∙ rw (prev-last api n (y ∷ ys) q t, prev-last api h xs q r, t.links.0) refl in
      let last_x = last_of-member h xs in
      let last_y : member (last_of y ys) (n ∷ y ∷ ys) ≡ true =
        let later = last_of-member y ys in ground arith in
      Follows-then (api.next q) (api.next (api.add h n q)) h h h xs (y ∷ ys) r.links r.distinct
        (λ b i ne.
          let off = member-Apart b (last_of y ys) (h ∷ xs) (n ∷ y ∷ ys) apart i last_y in
          law b ∙ rw (off, ne) refl)
        (
          (let off =
                member-Apart (last_of h xs) (last_of y ys) (h ∷ xs) (n ∷ y ∷ ys) apart last_x
                  last_y in
              law (last_of h xs) ∙ ground arith),
          rw append-nil at (
              Follows-then (api.next q) (api.next (api.add h n q)) y n h ys [] t.links.1
                t.distinct.1
                (λ b i ne.
                  let off =
                    member-Apart (last_of h xs) b (h ∷ xs) (n ∷ y ∷ ys) apart last_x
                      (ground arith) in
                  law b ∙ ground arith)
                (law (last_of y ys) ∙ ground arith)),
        )

  merge-back :
      (h n y : Ptr) (xs ys : List Ptr) (q : Q)
      → Holds api h xs q
      → Holds api n (y ∷ ys) q
      → Apart (h ∷ xs) (n ∷ y ∷ ys)
      → Follows (api.prev (merge api h n q)) h (reverse (xs ++ y ∷ ys)) h
  unfolding merge
  merge-back h n y xs ys q r t apart =
      let full : (api.next q n == n) ≡ false = ground (arith, t.links.0, t.distinct.0) in
      let (z, zs, split) = snoc-cons (reverse ys) y in
      let turned : reverse (y ∷ ys) ≡ z ∷ zs = reverse-cons y ys ∙ split in
      let (first, rest) = rw turned at t.back in
      let own = rw turned at (Distinct-back api n (y ∷ ys) q t) in
      let ends : y ≡ last_of z zs =
        sym t.links.0 ∙ (rw turned at (next-first api n (y ∷ ys) q t)) in
      let law : (a : Ptr)
          → api.prev (api.add h n q) a
            ≡ (if a == h then z else if a == y then api.prev q h else api.prev q a) =
        λ a. api.prev-add h n q a full ∙ rw (first, t.links.0) refl in
      let off : member h (z ∷ zs) ≡ false =
        rw turned at
          (member-reverse h (y ∷ ys) (let out = apart h (ground arith) in ground arith)) in
      let y_off : member y (h ∷ xs) ≡ false =
        Apart-back y (h ∷ xs) (n ∷ y ∷ ys) apart (ground arith) in
      let y_back = member-reverse y xs (ground arith) in
      let h_back = (Distinct-back api h xs q r).0 in
      rw (reverse-append xs (y ∷ ys), turned)
        (
          law h ∙ ground arith,
          Follows-then (api.prev q) (api.prev (api.add h n q)) z n h zs (reverse xs) rest own.1
              (λ b i ne.
                let away = member-differs b h (z ∷ zs) i off in
                let inner : (b == y) ≡ false = rw ends ne in law b ∙ rw (away, inner) refl)
              (Follows-restart (api.prev q) (api.prev (api.add h n q)) (last_of z zs) h h
                (reverse xs) r.back (law (last_of z zs) ∙ ground arith)
                (λ b i.
                  let here = member-differs b h (reverse xs) i h_back in
                  let there = member-differs b y (reverse xs) i y_back in
                  law b ∙ rw (here, there) refl)),
        )

  -- A ring into which another with nodes is merged holds its own nodes and then the other's. No node
  -- or head is in both.
  pub merge-Holds :
      (h n y : Ptr) (xs ys : List Ptr) (q : Q)
      → Holds api h xs q
      → Holds api n (y ∷ ys) q
      → Apart (h ∷ xs) (n ∷ y ∷ ys)
      → Holds api h (xs ++ y ∷ ys) (merge api h n q)
  merge-Holds h n y xs ys q r t apart = record {
    links = merge-links h n y xs ys q r t apart;
    back = merge-back h n y xs ys q r t apart;
    distinct =
        Distinct-append (h ∷ xs) (y ∷ ys) r.distinct t.distinct.1
          (λ b i. let out = apart b i in ground arith);
  }
