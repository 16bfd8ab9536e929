-- ===== src/HttpTest/Containers.antt =====
-- `array(r)` and `list(r)` of http/test/NdgTestHandler.hpp, with what they print.
pub mod Range
pub mod Checked
use ngx_cpp_dev.Base.{
  ℕ, zero, suc, ◌==◌, Bool, not, is_some, Option, List, [], ◌∷◌, ◌++◌, if◌then◌else◌,
}
use ngx_cpp_dev.Base.Int.{ℤ, pos, eqb_ℤ}
use ngx_cpp_dev.Base.Run.{Cmd, ok, fault, out_of_fuel, lifted, ◌>>=◌, ◌>>◌, pure, modify, get}
use ngx_cpp_dev.Nginx.{ngx_error}
use ngx_cpp_dev.Exception.{require}
use ngx_cpp_dev.NgxArray
use ngx_cpp_dev.NgxArray.{Array}
use ngx_cpp_dev.NgxList
use ngx_cpp_dev.NgxList.{NgxList, Iter}

-- A container with what was printed of it.
pub record Trial (C : Type 0) : Type 0 where
  pub container : C
  pub out : List ℤ

abbrev pub on_container : {C A : Type 0} → Cmd C A → Cmd (Trial C) A
on_container m s = lifted (λ x. record s { container = x }) (m s.container)

abbrev pub print : {C : Type 0} → ℤ → Cmd (Trial C) (Unit {0})
print x = modify (λ s. record s { out = s.out ++ x ∷ [] })

-- `assert(b)`: the process ends if it does not hold.
abbrev pub assert : {S : Type 0} → Bool → Cmd S (Unit {0})
assert b = if b then pure tt else λ _. fault

-- C++'s `for(auto& x : l)`, which compares its iterator with `end()`.
unfoldable pub range_for : {A S : Type 0} → ℕ → (A → Cmd S (Unit {0})) → Iter A → Cmd S (Unit {0})
range_for zero v it = λ _. out_of_fuel
range_for (suc k) v it =
    let rest = range_for k v in
    if NgxList.equal it NgxList.at_end
    then pure tt
    else do a ← NgxList.dereference it; v a; rest (NgxList.increment it)

-- `array(r)`: `created` is what `ngx_array_create` returns.
unfoldable pub array :
    (ngx_array_push : ℤ → List ℤ → Option (List ℤ))
    → (created : Array ℤ) → Cmd (Trial (Array ℤ)) (Unit {0})
unfolding require NgxArray.size
array ngx_array_push created = do
  require (is_some created) ngx_error
  modify (λ s. record s { container = created })
  s ← get
  assert (NgxArray.size s.container == 0)
  on_container (NgxArray.push ngx_array_push (pos 42))
  on_container (NgxArray.push ngx_array_push (pos 253))
  t ← get
  x ← NgxArray.at t.container 0
  assert (eqb_ℤ x (pos 42))
  NgxArray.visit print t.container

-- What `list(r)` does with its filled list; the first assertion assigns.
unfoldable pub look : (fuel : ℕ) → Cmd (Trial (NgxList ℤ)) (Unit {0})
unfolding NgxList.begin NgxList.at_end NgxList.equal
look fuel = do
  s ← get
  x ← NgxList.dereference (NgxList.begin s.container)
  modify (λ t. record t {
    container = NgxList.modify_at (NgxList.begin s.container) (λ y. pos 2000) s.container;
  })
  assert (not (eqb_ℤ (pos 2000) (pos 0)))
  t ← get
  p ← NgxList.find fuel (λ y. eqb_ℤ y (pos 2015)) t.container
  assert (not (NgxList.equal p NgxList.at_end))
  y ← NgxList.dereference p
  assert (eqb_ℤ y (pos 2015))
  range_for fuel print (NgxList.begin t.container)

-- `l.push(x)` for each of these in turn.
abbrev pub push_all :
    (ngx_list_push : ℤ → NgxList ℤ → Option (NgxList ℤ))
    → List ℤ
    → Cmd (Trial (NgxList ℤ)) (Unit {0})
    → Cmd (Trial (NgxList ℤ)) (Unit {0})
push_all ngx_list_push [] k = k
push_all ngx_list_push (x ∷ xs) k =
    on_container (NgxList.push ngx_list_push x) >> push_all ngx_list_push xs k

-- `list(r)`: the list is what `ngx_list_create` made, if `given` says that it had memory.
unfoldable pub list :
    (ngx_list_push : ℤ → NgxList ℤ → Option (NgxList ℤ))
    → (fuel : ℕ) → (given : Bool) → (created : NgxList ℤ) → Cmd (Trial (NgxList ℤ)) (Unit {0})
unfolding require
list ngx_list_push fuel given created = do
  require given ngx_error
  modify (λ s. record s { container = created })
  push_all ngx_list_push (pos 2000 ∷ pos 2008 ∷ pos 2015 ∷ []) (look fuel)
