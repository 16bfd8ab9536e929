-- ===== src/Value/Merge.antt =====
-- How `NgxValue::merge` hands a value down the configuration levels.
use ngx_cpp_dev.Base.{ℕ, ◌≡◌, Bool, true, false, List, [], ◌∷◌, arith, if◌then◌else◌}
use ngx_cpp_dev.Value.{Settable, word_settable, merge, unset}

module _ {T : Type 0} (invalid : T → Bool) where
  -- The order in which nginx merges: the outermost level is left as it is, and each inner level is
  -- merged with its parent's result. The innermost level stands first.
  abbrev pub merged_levels : T → T → List T → T
  merged_levels d c [] = c
  merged_levels d c (p ∷ ps) = merge invalid c (merged_levels d p ps) d

  -- The innermost value that is set, or the default.
  abbrev pub nearest_set : T → List T → T
  nearest_set d [] = d
  nearest_set d (c ∷ cs) = if invalid c then nearest_set d cs else c

  -- Merging level by level gives the innermost value that is set, and the default if none is.
  pub merge-nearest_set :
      (d c p : T) (ps : List T) → merged_levels d c (p ∷ ps) ≡ nearest_set d (c ∷ p ∷ ps)
  unfolding merge
  merge-nearest_set d c p [] = ground arith
  merge-nearest_set d c p (q ∷ qs) = ground (arith, merge-nearest_set d p q qs)

  -- A merge into a level that has been merged changes nothing, whatever the parent is by then.
  pub merge-init :
      (c p q d : T)
      → invalid d ≡ false
      → merge invalid (merge invalid c p d) q d ≡ merge invalid c p d
  unfolding merge
  merge-init c p q d h = ground arith

-- Every value reads as unset.
abbrev pub AllInvalid : {T : Type 0} → Settable T → List T → Type 0
AllInvalid t [] = Unit {0}
AllInvalid t (v ∷ vs) = (t.invalid v ≡ true) × AllInvalid t vs

-- Every unsigned word that is handed to `unset`, of any width, reads as unset afterwards.
pub unset-AllInvalid :
    (w : ℕ) (vs : List ℕ) → AllInvalid (word_settable w) (unset (word_settable w) vs)
unfolding unset word_settable
unset-AllInvalid w [] = tt
unset-AllInvalid w (v ∷ vs) = (ground arith, unset-AllInvalid w vs)
