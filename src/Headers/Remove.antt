-- ===== src/Headers/Remove.antt =====
-- `NgxHeaders::remove` marks a header, and leaves it in the list.
use ngx_cpp_dev.Base.{
  suc, ◌⊎◌, Bool-cases, is_some, ◌∙◌, sym, ap, ℕ, ◌<◌, ◌≡◌, inl, inr, refl, Bool, true, false, none,
  List, [], ◌∷◌, ◌++◌, arith, if◌then◌else◌, length, All,
}
use ngx_cpp_dev.Base.Run.{ok}
use ngx_cpp_dev.Nginx.{NgxStr, TableElt}
use ngx_cpp_dev.NgxList.{NgxList, Iter, IsValid, items, at_end, equal, begin, modify_at}
use ngx_cpp_dev.NgxList.Update.{modify_at-IsValid, Within, find_loop-Within, modify_at-items}
use ngx_cpp_dev.NgxList
use ngx_cpp_dev.Headers.{find, has, remove}
use ngx_cpp_dev.Headers.Lookup.{
  first_match-some, has-first_match, equal-at_end_self, matches, first_match, find-cases,
  equal-at_end,
}

module _ (iequals : NgxStr → NgxStr → Bool) where
  abbrev pub unhashed : TableElt → TableElt
  unhashed kv = record kv { hash = 0 }

  -- The first header with the key gets the hash 0.
  abbrev pub mark_first : NgxStr → List TableElt → List TableElt
  mark_first key [] = []
  mark_first key (kv ∷ kvs) =
      if matches iequals key kv then unhashed kv ∷ kvs else kv ∷ mark_first key kvs

  mark_first-none :
      (key : NgxStr) (kvs : List TableElt)
      → first_match iequals key kvs ≡ none
      → mark_first key kvs ≡ kvs
  mark_first-none key [] e = refl
  mark_first-none key (kv ∷ kvs) e = ground (arith, mark_first-none key kvs)

  mark_first-append :
      (key : NgxStr) (before after : List TableElt) (hit : TableElt)
      → All (λ kv. matches iequals key kv ≡ false) before
      → matches iequals key hit ≡ true
      → mark_first key (before ++ hit ∷ after) ≡ before ++ unhashed hit ∷ after
  mark_first-append key [] after hit h e = rw e
  mark_first-append key (kv ∷ before) after hit h e =
      rw h.0 (ap (λ x. kv ∷ x) (mark_first-append key before after hit h.1 e))

  find-Within :
      (k : ℕ) (key : NgxStr) (l : NgxList TableElt) (it : Iter TableElt)
      → find iequals k key l ≡ ok it l
      → Within (l.part ∷ l.rest) it
  unfolding find NgxList.find begin
  find-Within k key l it e =
      find_loop-Within k (matches iequals key) (l.part ∷ l.rest) (begin l) it l l ([], refl) e

  -- `remove` sets the hash of the first header of a valid list with the key to 0, keeps the list
  -- valid and changes nothing else; if no header has the key it changes nothing. The fuel is more
  -- than the number of headers.
  pub remove-mark_first :
      (k : ℕ) (key : NgxStr) (l : NgxList TableElt)
      → IsValid l
      → length (items l) < k
      → (l' : NgxList TableElt) × (remove iequals k key l ≡ ok tt l')
        × IsValid l'
        × (items l' ≡ mark_first key (items l))
  unfolding remove
  remove-mark_first k key l v fuel = elim (find-cases iequals k key l v fuel) [
    | inl (e, m) ↦ (l, rw (e, equal-at_end_self iequals), v, sym (mark_first-none key (items l) m))
    | inr (it, f, e, m) ↦ (
      modify_at it unhashed l,
      rw (e, equal-at_end iequals it f.hit f.step),
      modify_at-IsValid it unhashed l v,
      modify_at-items l unhashed it f.before f.after (find-Within k key l it e) f.step.reads f.rest
            f.split
          ∙ sym (
              ap (mark_first key) f.split
              ∙ mark_first-append key f.before f.after f.hit f.missed f.satisfies),
    )
  ]

  length-marked :
      (before after : List TableElt) (hit : TableElt)
      → length (before ++ unhashed hit ∷ after) ≡ length (before ++ hit ∷ after)
  length-marked [] after hit = refl
  length-marked (kv ∷ before) after hit = ap suc (length-marked before after hit)

  first_match-missed :
      (key : NgxStr) (kvs : List TableElt)
      → first_match iequals key kvs ≡ none
      → All (λ kv. matches iequals key kv ≡ false) kvs
  first_match-missed key [] e = tt
  first_match-missed key (kv ∷ kvs) e = elim (Bool-cases (matches iequals key kv)) [
    | inl hit ↦ absurd (ground (arith, hit, e))
    | inr missed ↦ (missed, first_match-missed key kvs (rw missed at e))
  ]

  -- What `remove` and `has`, before and after it, do with a list: no header has the key, and nothing
  -- happens; or the first that has it gets the hash 0, all others stay, and it is found as before.
  abbrev pub StillFound : ℕ → NgxStr → NgxList TableElt → NgxList TableElt → Type 0
  StillFound k key l l' =
      (All (λ kv. matches iequals key kv ≡ false) (items l)
        × (l' ≡ l)
        × (has iequals k key l ≡ ok false l))
      ⊎ ((before : List TableElt) × (hit : TableElt) × (after : List TableElt) × (items l
            ≡ before ++ hit ∷ after)
          × All (λ kv. matches iequals key kv ≡ false) before
          × (matches iequals key hit ≡ true)
          × (items l' ≡ before ++ record hit { hash = 0 } ∷ after)
          × (has iequals k key l ≡ ok true l)
          × (has iequals k key l' ≡ ok true l'))

  -- On a valid list, if no header has the key, `has` answers that there is none, and `remove` changes
  -- nothing. Else `remove` sets the hash of the first header with the key to 0 and changes no other,
  -- and `has` answers after it as before that the header is there, although nginx does not send a
  -- header whose hash is 0. The fuel is more than the number of headers.
  pub has-remove :
      (k : ℕ) (key : NgxStr) (l : NgxList TableElt)
      → IsValid l
      → length (items l) < k
      → (l' : NgxList TableElt) × (remove iequals k key l ≡ ok tt l') × StillFound k key l l'
  unfolding remove
  has-remove k key l v fuel = elim (find-cases iequals k key l v fuel) [
    | inl (e, m) ↦ (
      l,
      rw (e, equal-at_end_self iequals),
      inl (
        first_match-missed key (items l) m,
        refl,
        rw (has-first_match iequals k key l v fuel, m) refl,
      ),
    )
    | inr (it, f, e, m) ↦
        let marked =
          modify_at-items l unhashed it f.before f.after (find-Within k key l it e) f.step.reads
            f.rest f.split in
        let l' = modify_at it unhashed l in
        let v' = modify_at-IsValid it unhashed l v in
        let same =
          first_match-some iequals key f.before f.after (unhashed f.hit) f.missed f.satisfies in
        let fuel' : length (items l') < k =
          rw (marked, length-marked f.before f.after f.hit) (rw f.split at fuel) in
        (
          l',
          rw (e, equal-at_end iequals it f.hit f.step),
          inr (
            f.before,
            f.hit,
            f.after,
            f.split,
            f.missed,
            f.satisfies,
            marked,
            rw (has-first_match iequals k key l v fuel, m) refl,
            has-first_match iequals k key l' v' fuel'
                ∙ ap (λ x. ok (is_some x) l') (ap (first_match iequals key) marked ∙ same),
          ),
        )
  ]
