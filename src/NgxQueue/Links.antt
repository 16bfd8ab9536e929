-- ===== src/NgxQueue/Links.antt =====
-- Chains of links, as the rings of ngxpp/NgxQueue.hpp have them in either direction.
use ngx_cpp_dev.Base.{
  length-append, length, Distinct, if◌then◌else◌, ◌==◌, ◌≡◌, ◌∙◌, refl, true, false, List, [], ◌∷◌,
  ◌++◌, member, arith, Bool-cases, inl, inr,
}
use mathlib.Core.List.{reverse, reverse-cons}
use ngx_cpp_dev.Nginx.{Ptr}

-- From `a` the links lead through `xs` to `h`.
abbrev pub Follows : (Ptr → Ptr) → Ptr → List Ptr → Ptr → Type 0
Follows next a [] h = next a ≡ h
Follows next a (x ∷ xs) h = (next a ≡ x) × Follows next x xs h

abbrev pub last_of : Ptr → List Ptr → Ptr
last_of a [] = a
last_of a (x ∷ xs) = last_of x xs

pub last_of-member : (a : Ptr) (xs : List Ptr) → member (last_of a xs) (a ∷ xs) ≡ true
last_of-member a [] = ground arith
last_of-member a (x ∷ xs) = let later = last_of-member x xs in ground arith

last_of-append : (a : Ptr) (xs zs : List Ptr) → member (last_of a xs) (a ∷ (xs ++ zs)) ≡ true
last_of-append a [] zs = ground arith
last_of-append a (x ∷ xs) zs = let later = last_of-append x xs zs in ground arith

-- The links after `x` was put behind the last node.
abbrev pub with_tail : (Ptr → Ptr) → (h x last : Ptr) → Ptr → Ptr
with_tail next h x last a = if a == x then h else if a == last then x else next a

pub Follows-with_tail :
    (next : Ptr → Ptr) (h x a : Ptr) (xs : List Ptr)
    → Follows next a xs h
    → Distinct (a ∷ xs)
    → member x (a ∷ xs) ≡ false
    → Follows (with_tail next h x (last_of a xs)) a (xs ++ x ∷ []) h
Follows-with_tail next h x a [] f d new = (ground arith, ground arith)
Follows-with_tail next h x a (y ∷ ys) (here, f) (once, d) new =
    let last = last_of-member y ys in
    (ground arith, Follows-with_tail next h x y ys f d (ground arith))

pub Follows-same :
    {next next' : Ptr → Ptr} (h a : Ptr) (xs : List Ptr)
    → Follows next a xs h
    → ((b : Ptr) → member b (a ∷ xs) ≡ true → next' b ≡ next b)
    → Follows next' a xs h
Follows-same h a [] f same = same a (ground arith) ∙ f
Follows-same h a (x ∷ xs) (here, f) same =
    (same a (ground arith) ∙ here, Follows-same h x xs f (λ b i. same b (ground arith)))

pub last_of-snoc : (a x : Ptr) (xs : List Ptr) → last_of a (xs ++ x ∷ []) ≡ x
last_of-snoc a x [] = refl
last_of-snoc a x (y ∷ ys) = last_of-snoc y x ys

member-snoc :
    (b x : Ptr) (xs : List Ptr)
    → member b xs ≡ false
    → (x == b) ≡ false
    → member b (xs ++ x ∷ []) ≡ false
member-snoc b x [] out ne = ground arith
member-snoc b x (y ∷ ys) out ne = let later = member-snoc b x ys (ground arith) ne in ground arith

pub Distinct-snoc :
    (x : Ptr) (xs : List Ptr) → Distinct xs → member x xs ≡ false → Distinct (xs ++ x ∷ [])
Distinct-snoc x [] d new = (refl, tt)
Distinct-snoc x (y ∷ ys) (once, d) new =
    (member-snoc y x ys once (ground arith), Distinct-snoc x ys d (ground arith))

-- The links after `x` was put behind `h`.
abbrev pub with_head : (Ptr → Ptr) → (h x : Ptr) → Ptr → Ptr
with_head next h x a = if a == x then next h else if a == h then x else next a

pub Follows-with_head :
    (next : Ptr → Ptr) (h x : Ptr) (xs : List Ptr)
    → Follows next h xs h
    → Distinct (h ∷ xs)
    → member x (h ∷ xs) ≡ false
    → Follows (with_head next h x) h (x ∷ xs) h
Follows-with_head next h x [] f d new = (ground arith, ground arith)
Follows-with_head next h x (y ∷ ys) (here, f) (once, d) new =
    (ground arith, (ground arith, Follows-same h y ys f (λ b i. ground arith)))

-- A chain that ends with `x`, cut before it.
Follows-snoc :
    (f : Ptr → Ptr) (a x c : Ptr) (xs : List Ptr) → Follows f a (xs ++ x ∷ []) c → Follows f a xs x
Follows-snoc f a x c [] (here, end) = here
Follows-snoc f a x c (y ∷ ys) (here, rest) = (here, Follows-snoc f y x c ys rest)

-- The first link of a chain leads to what stands last in its reverse.
pub Follows-first :
    (f : Ptr → Ptr) (a c : Ptr) (ys : List Ptr) → Follows f a (reverse ys) c → f a ≡ last_of c ys
Follows-first f a c [] e = e
Follows-first f a c (y ∷ ys) e =
    Follows-first f a y ys (Follows-snoc f a y c (reverse ys) (rw reverse-cons at e))

-- The part of a chain from one of its nodes on.
pub Follows-from :
    (f : Ptr → Ptr) (a x c : Ptr) (before after : List Ptr)
    → Follows f a (before ++ x ∷ after) c
    → Follows f x after c
Follows-from f a x c [] after (here, rest) = rest
Follows-from f a x c (y ∷ ys) after (here, rest) = Follows-from f y x c ys after rest

pub member-reverse : (b : Ptr) (xs : List Ptr) → member b xs ≡ false → member b (reverse xs) ≡ false
member-reverse b [] out = out
member-reverse b (x ∷ xs) out =
    rw reverse-cons
      (member-snoc b x (reverse xs) (member-reverse b xs (ground arith)) (ground arith))

pub Distinct-reverse : (xs : List Ptr) → Distinct xs → Distinct (reverse xs)
Distinct-reverse [] d = tt
Distinct-reverse (x ∷ xs) (once, d) =
    rw reverse-cons
      (Distinct-snoc x (reverse xs) (Distinct-reverse xs d) (member-reverse x xs once))

-- The links once `x`, between `p` and `n`, is out.
abbrev pub without : (Ptr → Ptr) → (p n : Ptr) → Ptr → Ptr
without f p n a = if a == p then n else f a

pub Follows-without :
    (f : Ptr → Ptr) (a x h : Ptr) (before after : List Ptr)
    → Follows f a (before ++ x ∷ after) h
    → Distinct (a ∷ before ++ x ∷ after)
    → Follows (without f (last_of a before) (f x)) a (before ++ after) h
Follows-without f a x h [] [] (here, e) d = ground arith
Follows-without f a x h [] (y ∷ ys) (here, (e, rest)) (once, (once', d)) =
    (ground arith, Follows-same h y ys rest (λ b i. ground arith))
Follows-without f a x h (y ∷ ys) after (here, rest) (once, d) = (
  let later = last_of-append y ys (x ∷ after) in ground arith,
  Follows-without f y x h ys after rest d,
)

member-cut :
    (b x : Ptr) (xs ys : List Ptr)
    → member b (xs ++ x ∷ ys) ≡ false
    → (member b (xs ++ ys) ≡ false) × ((b == x) ≡ false)
member-cut b x [] ys out = (ground arith, ground arith)
member-cut b x (y ∷ xs) ys out =
    let (later, ne) = member-cut b x xs ys (ground arith) in (ground arith, ne)

-- A list without one of its nodes, which it then has no more.
pub Distinct-without :
    (x : Ptr) (xs ys : List Ptr)
    → Distinct (xs ++ x ∷ ys)
    → Distinct (xs ++ ys) × (member x (xs ++ ys) ≡ false)
Distinct-without x [] ys (once, d) = (d, once)
Distinct-without x (y ∷ xs) ys (once, d) =
    let (d', out) = Distinct-without x xs ys d in
    let (once', ne) = member-cut y x xs ys once in ((once', d'), ground arith)

pub member-differs :
    (b x : Ptr) (xs : List Ptr) → member b xs ≡ true → member x xs ≡ false → (b == x) ≡ false
member-differs b x [] i out = cc
member-differs b x (y ∷ ys) i out = elim (Bool-cases (y == b)) [
  | inl here ↦ ground arith
  | inr away ↦ member-differs b x ys (ground arith) (ground arith)
]

pub length-reverse : (xs : List Ptr) → length (reverse xs) ≡ length xs
length-reverse [] = refl
length-reverse (x ∷ xs) = rw (reverse-cons, length-append) (omega (arith, length-reverse xs))
