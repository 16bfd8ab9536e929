-- ===== src/Base/Run.antt =====
-- What a C++ function does to a state: it returns, throws `NgxException`, or reads through a bad
-- pointer. The changes made before an exception stay. A loop has fuel, and says when it is used up.
use Prim.Native.Nat.{ℕ}
use mathlib.Core.List.{List, [], ◌∷◌, ◌++◌, map}
use mathlib.Core.Path.{◌≡◌, refl, sym, ◌∙◌, ap, fun_ext}
use ngx_cpp_dev.Base.Int.{ℤ}

-- `NgxException`: `m_code` and the bytes of `m_msg`.
pub record NgxException : Type 0 where
  pub code : ℤ
  pub msg : List ℕ

pub data Run {ℓ κ} (S : Type ℓ) (A : Type κ) : Type (ℓ ⊔ κ) where
  ok : A → S → Run S A
  raised : NgxException → S → Run S A
  fault : Run S A
  out_of_fuel : Run S A

abbrev pub Cmd {ℓ κ} : Type ℓ → Type κ → Type (ℓ ⊔ κ)
Cmd S A = S → Run S A

module _ {ℓ κ μ} {S : Type ℓ} {A : Type κ} {B : Type μ} where
  abbrev pub and_then : Run S A → (A → Cmd S B) → Run S B
  and_then (ok a s) k = k a s
  and_then (raised e s) k = raised e s
  and_then fault k = fault
  and_then out_of_fuel k = out_of_fuel

  infixl 5 ◌>>=◌ ◌>>◌
  abbrev pub ◌>>=◌ : Cmd S A → (A → Cmd S B) → Cmd S B
  m >>= k = λ s. and_then (m s) k

  abbrev pub ◌>>◌ : Cmd S A → Cmd S B → Cmd S B
  m >> k = m >>= λ _. k

-- The handler of an exception, for the result of what was tried.
abbrev pub caught {ℓ κ} : {S : Type ℓ} {A : Type κ} → (NgxException → Cmd S A) → Run S A → Run S A
caught h (ok a s) = ok a s
caught h (raised e s) = h e s
caught h fault = fault
caught h out_of_fuel = out_of_fuel

-- `try { m } catch (const NgxException& e) { h e }`.
abbrev pub catch {ℓ κ} : {S : Type ℓ} {A : Type κ} → Cmd S A → (NgxException → Cmd S A) → Cmd S A
catch m h s = caught h (m s)

-- The result of a command on a part of a state, as a result on the whole; `put` puts the part back.
abbrev pub lifted {ℓ κ μ} : {S : Type ℓ} {T : Type κ} {A : Type μ} → (T → S) → Run T A → Run S A
lifted put (ok a t) = ok a (put t)
lifted put (raised e t) = raised e (put t)
lifted put fault = fault
lifted put out_of_fuel = out_of_fuel

module _ {ℓ} {S : Type ℓ} where
  abbrev pub pure {κ} : {A : Type κ} → A → Cmd S A
  pure = ok

  abbrev pub get : Cmd S S
  get s = ok s s

  abbrev pub modify : (S → S) → Cmd S (Unit {0})
  modify f s = ok tt (f s)

-- A loop over a list.
abbrev pub for_each {ℓ κ} :
    {S : Type ℓ} {A : Type κ} → (A → Cmd S (Unit {0})) → List A → Cmd S (Unit {0})
for_each v [] = pure tt
for_each v (x ∷ xs) = v x >> for_each v xs

-- Two continuations that agree everywhere are one.
pub and_then-congr {ℓ κ μ} :
    {S : Type ℓ} {A : Type κ} {B : Type μ} (r : Run S A) {f g : A → Cmd S B}
    → ((a : A) (s : S) → f a s ≡ g a s)
    → and_then r f ≡ and_then r g
and_then-congr r h = ap (and_then r) (fun_ext λ a. fun_ext λ s. h a s)

-- A chain that returns is made of steps that return.
pub and_then-eq-ok {ℓ κ μ} :
    {S : Type ℓ} {A : Type κ} {B : Type μ} (r : Run S A) (f : A → Cmd S B) {b : B} {t : S}
    → and_then r f ≡ ok b t
    → (a : A) × (s : S) × (r ≡ ok a s) × (f a s ≡ ok b t)
and_then-eq-ok (ok a s) f h = (a, s, refl, h)
and_then-eq-ok (raised e s) f h = cc
and_then-eq-ok fault f h = cc
and_then-eq-ok out_of_fuel f h = cc

pub and_then_assoc {ℓ κ μ ν} :
    {S : Type ℓ} {A : Type κ} {B : Type μ} {C : Type ν} (r : Run S A) (f : A → Cmd S B)
    (g : B → Cmd S C)
    → and_then (and_then r f) g ≡ and_then r (λ a. f a >>= g)
and_then_assoc (ok a s) f g = refl
and_then_assoc (raised e s) f g = refl
and_then_assoc fault f g = refl
and_then_assoc out_of_fuel f g = refl

pub for_each-append {ℓ κ} :
    {S : Type ℓ} {A : Type κ} (f : A → Cmd S (Unit {0})) (xs ys : List A) (s : S)
    → for_each f (xs ++ ys) s ≡ (for_each f xs >> for_each f ys) s
for_each-append f [] ys s = refl
for_each-append f (x ∷ xs) ys s =
    and_then-congr (f x s) (λ u t. for_each-append f xs ys t)
    ∙ sym (and_then_assoc (f x s) (λ u. for_each f xs) (λ u. for_each f ys))

-- A loop over a mapped list.
pub for_each-map {ℓ κ μ} :
    {S : Type ℓ} {A : Type κ} {B : Type μ} (f : B → Cmd S (Unit {0})) (g : A → B) (xs : List A)
    (s : S)
    → for_each f (map g xs) s ≡ for_each (λ x. f (g x)) xs s
for_each-map f g [] s = refl
for_each-map f g (x ∷ xs) s = and_then-congr (f (g x) s) (λ u t. for_each-map f g xs t)

-- A command on a part of a state, and a continuation that stays on that part.
pub and_then-lifted {ℓ κ μ ν} :
    {S : Type ℓ} {T : Type κ} {A : Type μ} {B : Type ν} (put : T → S) (r : Run T A)
    (f : A → Cmd S B) (g : A → Cmd T B)
    → ((a : A) (t : T) → f a (put t) ≡ lifted put (g a t))
    → and_then (lifted put r) f ≡ lifted put (and_then r g)
and_then-lifted put (ok a t) f g h = h a t
and_then-lifted put (raised e t) f g h = refl
and_then-lifted put fault f g h = refl
and_then-lifted put out_of_fuel f g h = refl
