-- ===== src/HttpTest/Containers/Checked.antt =====
-- What `list(r)` of http/test/NdgTestHandler.hpp finds in its list.
use ngx_cpp_dev.NgxArray
use ngx_cpp_dev.NgxArray.{Array, elements}
use ngx_cpp_dev.NgxArray.Access.{visit-elements}
use ngx_cpp_dev.Base.{
  ℕ, ◌<◌, ◌≡◌, refl, ◌⊎◌, inl, inr, Bool, true, false, List, [], ◌∷◌, ◌++◌, Option, some, none,
  length, append_assoc, append-nil, Option-cases, Bool-cases, ◌∙◌, arith,
}
use ngx_cpp_dev.Base.Int.{ℤ, pos, eqb_ℤ, eqb_ℤ_iff}
use ngx_cpp_dev.Base.Run.{Run, Cmd, ok, raised}
use ngx_cpp_dev.Nginx.{ngx_error, is_null}
use ngx_cpp_dev.Exception.{raise, require, exception_of}
use ngx_cpp_dev.NgxList.{NgxList, Iter, IsValid, PushesBack, items, push, begin, find, modify_at}
use ngx_cpp_dev.NgxList.Position.{
  items-empty, begin-IsPlaced, placed-cases, Advance, begin-remaining, remaining,
}
use ngx_cpp_dev.NgxList.Order.{find-FindResult, dereference-ok}
use ngx_cpp_dev.NgxList.Update.{modify_at-items, modify_at-IsValid}
use ngx_cpp_dev.HttpTest.Containers.{Trial, print, look, push_all, list, array}
use ngx_cpp_dev.HttpTest.Containers.Range.{range_for-items, equal-reads}

-- A list with an element has one in its first part.
has_elts-first :
    {A : Type 0} (l : NgxList A) {x : A} {xs : List A}
    → IsValid l
    → items l ≡ x ∷ xs
    → is_null (length l.part.elts) ≡ false
has_elts-first l v e = elim (Bool-cases (is_null (length l.part.elts))) [
  | inr some_elts ↦ some_elts
  | inl hollow ↦ absurd (let hollow' = items-empty l v hollow in cc)
]

-- The iterator that `begin` returns reads the first element.
begin-reads :
    {A : Type 0} (l : NgxList A) (x : A) (xs : List A)
    → IsValid l
    → items l ≡ x ∷ xs
    → Advance (begin l) x × (remaining (begin l) ≡ x ∷ xs)
begin-reads l x xs v e =
    let all = begin-remaining l ∙ e in
    elim (placed-cases (begin l) (begin-IsPlaced l v (has_elts-first l v e))) [
      | inl (stop, hollow) ↦ absurd (let hollow' = all in cc)
      | inr (a, step) ↦ let same : x ≡ a = (let rest = step.rest in cc) in (rw same step, all)
    ]

module _ (ngx_list_push : ℤ → NgxList ℤ → Option (NgxList ℤ)) where
  -- The pushes all succeed, or one finds no memory and the rest is not done.
  push_all-Pushed :
      (xs : List ℤ) (k : Cmd (Trial (NgxList ℤ)) (Unit {0})) (s : Trial (NgxList ℤ))
      → PushesBack ngx_list_push
      → IsValid s.container
      → ((l : NgxList ℤ) × (push_all ngx_list_push xs k s ≡ k (record s { container = l }))
          × IsValid l
          × (items l ≡ items s.container ++ xs))
        ⊎ ((l l' : NgxList ℤ) × (x : ℤ) × (push_all ngx_list_push xs k s
              ≡ raised (exception_of ngx_error) (record s { container = l }))
            × (ngx_list_push x l' ≡ none))
  unfolding push raise
  push_all-Pushed [] k s law v = inl (s.container, refl, v, rw append-nil)
  push_all-Pushed (x ∷ xs) k s law v = elim (Option-cases (ngx_list_push x s.container)) [
    | inl full ↦ rw (full, push) (inr (s.container, s.container, x, refl, full))
    | inr (l, e) ↦
        let (w, grown) = law x s.container l v e in
        rw (e, push)
          (elim (push_all-Pushed xs k (record s { container = l }) law w) [
            | inl (t, r, u, g) ↦
                inl (t, r, u, rw (g, grown) (append_assoc (items s.container) (x ∷ []) xs))
            | inr failed ↦ inr failed
          ])
  ]

abbrev pub three : List ℤ
three = pos 2000 ∷ pos 2008 ∷ pos 2015 ∷ []

abbrev is_2015 : ℤ → Bool
is_2015 y = eqb_ℤ y (pos 2015)

-- The look at the list returns, with the three numbers printed and in the list.
abbrev pub Printed : List ℤ → Run (Trial (NgxList ℤ)) (Unit {0}) → Type 0
Printed out r =
    (l : NgxList ℤ) × (r ≡ ok tt (record { container = l; out = out ++ three })) × (items l ≡ three)

-- It throws, with nothing printed: there is no memory for the list or for an element.
abbrev pub Unfilled :
    (ℤ → NgxList ℤ → Option (NgxList ℤ))
    → Bool
    → List ℤ
    → Run (Trial (NgxList ℤ)) (Unit {0})
    → Type 0
Unfilled ngx_list_push given out r =
    (t : Trial (NgxList ℤ)) × (r ≡ raised (exception_of ngx_error) t)
    × (t.out ≡ out)
    × ((given ≡ false) ⊎ ((x : ℤ) × (l : NgxList ℤ) × (ngx_list_push x l ≡ none)))

-- `find` reaches the last of the three numbers.
find-2015 :
    {S : Type 0} (fuel : ℕ) (l : NgxList ℤ) (s : S)
    → IsValid l
    → items l ≡ three
    → 3 < fuel
    → (it : Iter ℤ) × (find fuel is_2015 l s ≡ ok it s) × Advance it (pos 2015)
find-2015 fuel l s v e enough = elim (find-FindResult is_2015 fuel l s v (rw e enough)) [
  | inl (r, missed) ↦ absurd (let missed' = (rw e at missed) in ground arith)
  | inr (it, r, f) ↦
      let same = (eqb_ℤ_iff f.hit (pos 2015)).0 f.satisfies in (it, r, rw same at f.step)
]

look-Printed :
    (fuel : ℕ) (s : Trial (NgxList ℤ))
    → IsValid s.container
    → items s.container ≡ three
    → 3 < fuel
    → Printed s.out (look fuel s)
unfolding look
look-Printed fuel s v e enough =
    let (first, all) = begin-reads s.container (pos 2000) (pos 2008 ∷ pos 2015 ∷ []) v e in
    let l : NgxList ℤ = modify_at (begin s.container) (λ y. pos 2000) s.container in
    let w = modify_at-IsValid (begin s.container) (λ y. pos 2000) s.container v in
    let same : items l ≡ three =
      modify_at-items s.container (λ y. pos 2000) (begin s.container) [] (pos 2008 ∷ pos 2015 ∷ [])
        ([], refl) first.reads all e in
    let (it, found, hit) = find-2015 fuel l (record s { container = l }) w same enough in
    let run =
      range_for-items print fuel l (record s { container = l }) w (has_elts-first l w same)
        (rw same enough) in
    (
      l,
      rw
          (
            dereference-ok (begin s.container) (pos 2000) s first,
            found,
            equal-reads it.parts it.has_data it.count hit.reads,
            dereference-ok it (pos 2015) (record s { container = l }) hit,
            run,
            same,
          )
          (simp append_assoc),
      same,
    )

-- `list(r)` keeps all its assertions: it pushes three numbers, finds the last of them and prints them
-- in order, or throws because nginx has no memory, with nothing printed. The list that nginx creates
-- is empty, `ngx_list_push` adds one element behind the others, and the fuel is more than three.
pub list-Printed :
    (ngx_list_push : ℤ → NgxList ℤ → Option (NgxList ℤ)) (fuel : ℕ) (given : Bool)
    (created : NgxList ℤ) (s : Trial (NgxList ℤ))
    → PushesBack ngx_list_push
    → IsValid created
    → items created ≡ []
    → 3 < fuel
    → Printed s.out (list ngx_list_push fuel given created s)
      ⊎ Unfilled ngx_list_push given s.out (list ngx_list_push fuel given created s)
unfolding list require
list-Printed ngx_list_push fuel false created s law v hollow enough = inr (s, refl, refl, inl refl)
list-Printed ngx_list_push fuel true created s law v hollow enough =
    elim (push_all-Pushed ngx_list_push three (look fuel) (record s { container = created }) law
      v) [
        | inl (l, r, w, grown) ↦
            let (l', e, same) =
              look-Printed fuel (record s { container = l }) w (rw (grown, hollow) refl) enough in
            inl (l', r ∙ e, same)
        | inr (l, l', x, r, full) ↦ inr (record s { container = l }, r, refl, inr (x, l', full))
      ]

-- `array(r)` keeps its assertions and prints its two numbers in order, or throws with nothing printed
-- because nginx has no memory. The array that nginx creates is empty, and `ngx_array_push` adds one
-- element behind the others.
array-Printed :
    (ngx_array_push : ℤ → List ℤ → Option (List ℤ)) (created : Array ℤ) (s : Trial (Array ℤ))
    → ((x : ℤ) (xs ys : List ℤ) → ngx_array_push x xs ≡ some ys → ys ≡ xs ++ x ∷ [])
    → elements created ≡ []
    → (array ngx_array_push created s
        ≡ ok tt (record {
          container = some (pos 42 ∷ pos 253 ∷ []);
          out = s.out ++ pos 42 ∷ pos 253 ∷ [];
        }))
      ⊎ ((t : Trial (Array ℤ)) × (array ngx_array_push created s
            ≡ raised (exception_of ngx_error) t)
          × (t.out ≡ s.out))
unfolding array require NgxArray.size NgxArray.push NgxArray.at NgxArray.read_elt raise
array-Printed ngx_array_push none s law hollow = inr (s, refl, refl)
array-Printed ngx_array_push (some []) s law hollow =
    elim (Option-cases (ngx_array_push (pos 42) [])) [
      | inl full ↦ rw (full, NgxArray.push) (inr (record s { container = some [] }, refl, refl))
      | inr (one, e) ↦
          let one' = law (pos 42) [] one e in
          elim (Option-cases (ngx_array_push (pos 253) (pos 42 ∷ []))) [
            | inl full ↦
                rw (e, NgxArray.push, one', full)
                  (inr (record s { container = some one }, refl, refl))
            | inr (two, e') ↦
                let two' = law (pos 253) (pos 42 ∷ []) two e' in
                rw (e, NgxArray.push, one', e', two', visit-elements) (inl (simp append_assoc))
          ]
    ]
array-Printed ngx_array_push (some (x ∷ xs)) s law hollow = absurd (let hollow' = hollow in cc)
