-- ===== src/NgxConfig/Arguments.antt =====
-- Which numbers of arguments the bits of ngxpp/NgxConfig.hpp let through.
use Prim.Native.Nat.{bit_and}
use mathlib.Core.Path.{subst}
use ngx_cpp_dev.Base.{
  inl, inr, ◌||◌, ==_iff, Bool-cases, sym, ℕ, zero, suc, ◌<◌, ◌≤◌, ◌≡◌, refl, ◌^◌, Bool, true,
  false, not, ◌&&◌, leb, ◌==◌, Option, none, some, arith,
}
use ngx_cpp_dev.Base.Int.{pos}
use ngx_cpp_dev.NgxConfig.{join_takes, take}

-- nginx lets a command with `k` arguments through if bit `k` of its type is set.
abbrev pub accepts : Option ℕ → ℕ → Bool
accepts none k = false
accepts (some bits) k = not (bit_and bits (2 ^ k) == 0)

abbrev pub all_below : ℕ → (ℕ → Bool) → Bool
all_below zero p = true
all_below (suc n) p = p n && all_below n p

&&-both : (a b : Bool) → (a && b) ≡ true → (a ≡ true) × (b ≡ true)
&&-both true true h = (refl, refl)
&&-both true false h = (refl, h)
&&-both false true h = (h, refl)
&&-both false false h = (h, h)

pub all_below-at : (n : ℕ) (p : ℕ → Bool) → all_below n p ≡ true → (i : ℕ) → i < n → p i ≡ true
all_below-at zero p h i lt = absurd (omega arith)
all_below-at (suc n) p h i lt =
    let (here, rest) = &&-both (p n) (all_below n p) h in
    elim (Bool-cases (i == n)) [
      | inl e ↦ subst (λ j. p j ≡ true) (sym ((==_iff i n).0 e)) here
      | inr ne ↦ all_below-at n p rest i (ground arith)
    ]

abbrev pub agree : Bool → Bool → Bool
agree true b = b
agree false b = not b

pub agree-eq : (a b : Bool) → agree a b ≡ true → a ≡ b
agree-eq true true h = refl
agree-eq true false h = sym h
agree-eq false false h = refl
agree-eq false true h = h

or-not : (a b : Bool) → a ≡ true → (not a || b) ≡ true → b ≡ true
or-not true b t h = h
or-not false b t h = cc

abbrev fits : ℕ → ℕ → ℕ → Bool
fits m n k = not (leb m n) || agree (accepts (take (pos m) (pos n)) k) (leb m k && leb k n)

fits-all : all_below 8 (λ m. all_below 8 λ n. all_below 8 λ k. fits m n k) ≡ true
unfolding take join_takes
fits-all = refl

-- For `m` to `n` arguments, at most seven, the bits of `take(m, n)` let through a command with `k`
-- arguments exactly if `k` is from `m` to `n`.
pub take-accepts :
    (m n k : ℕ) → m ≤ n → n < 8 → k < 8 → accepts (take (pos m) (pos n)) k ≡ (leb m k && leb k n)
take-accepts m n k mn n8 k8 =
    let fit =
      all_below-at 8 (λ k. fits m n k)
        (all_below-at 8 (λ n. all_below 8 λ k. fits m n k)
          (all_below-at 8 (λ m. all_below 8 λ n. all_below 8 λ k. fits m n k) fits-all m
            (omega arith))
          n n8)
        k k8 in
    agree-eq (accepts (take (pos m) (pos n)) k) (leb m k && leb k n) (
      or-not (leb m n) (agree (accepts (take (pos m) (pos n)) k) (leb m k && leb k n))
        (ground arith) fit)
