-- ===== src/Variable/Names/Added.antt =====
-- Which variables ngxpp/NgxVariable.hpp adds.
use ngx_cpp_dev.Base.{
  ℕ, ◌==◌, ◌≡◌, ◌⊎◌, inl, inr, refl, true, false, Option, some, List, [], ◌∷◌, ◌++◌, All,
  Bool-cases, if◌then◌else◌, arith,
}
use ngx_cpp_dev.Base.Int.{ℤ}
use ngx_cpp_dev.Base.Run.{Run, Cmd, ok, raised}
use ngx_cpp_dev.Exception.{exception_of, fail, raise}
use ngx_cpp_dev.Nginx.{Ptr, null, is_null, NgxStr, ngx_ok, ngx_error}
use ngx_cpp_dev.Variable.Names.{Entry, AddedVariable, add_entry, add_entries, init}

module _ (ngx_add_variable : NgxStr → ℕ → Cmd (Ptr → Option AddedVariable) Ptr) where
  -- nginx adds a variable of the name and gives its address, or null.
  abbrev pub AddsOrRefuses : Type 0
  AddsOrRefuses =
      (name : NgxStr) (flags : ℕ) (vars : Ptr → Option AddedVariable)
      → (p : Ptr) × (vars' : Ptr → Option AddedVariable) × (ngx_add_variable name flags vars
          ≡ ok p vars')

  -- The run has asked nginx for each of the variables in turn, with its name and flags. Behind the
  -- address that nginx gave, and nowhere else, it has put the entry's handler and its data; a null
  -- address ends the run with an error.
  abbrev pub AddedAll :
      List Entry → (Ptr → Option AddedVariable) → Run (Ptr → Option AddedVariable) ℤ → Type 0
  AddedAll [] vars run = run ≡ ok ngx_ok vars
  AddedAll (v ∷ vs) vars run =
      (p : Ptr) × (vars' : Ptr → Option AddedVariable) × (ngx_add_variable v.name v.flags vars
        ≡ ok p vars')
      × (((p ≡ null) × (run ≡ raised (exception_of ngx_error) vars'))
          ⊎ (((p == null) ≡ false)
              × (t : Ptr → Option AddedVariable) × ((q : Ptr)
                  → t q ≡ (
                      if q == p
                      then some (record { get_handler = v.get_handler; data_word = v.data_word })
                      else vars' q))
              × AddedAll vs t run))

  -- `init` asks nginx for the variables of a table in turn, up to the first empty name, and gives each
  -- its handler and its data at the address that nginx answers; no other variable changes. It stops
  -- with `NGX_ERROR` at the first null address, ignores what stands behind the empty name, and reads
  -- no further than the table goes. The table has an empty name, and nginx's function returns.
  pub init-AddedAll :
      AddsOrRefuses
      → (vs after : List Entry) (last : Entry) (vars : Ptr → Option AddedVariable)
      → All (λ v. is_null v.name.len ≡ false) vs
      → is_null last.name.len ≡ true
      → AddedAll vs vars (init ngx_add_variable (some (vs ++ last ∷ after)) vars)
  unfolding init add_entries add_entry fail raise
  init-AddedAll answers [] after last vars named stop = rw stop refl
  init-AddedAll answers (v ∷ vs) after last vars (here, named) stop =
      let (p, vars', asked) = answers v.name v.flags vars in
      elim (Bool-cases (p == null)) [
        | inl bare ↦ (p, vars', asked, inl (ground arith, rw (here, asked, bare) refl))
        | inr there ↦
            let t : Ptr → Option AddedVariable = λ q.
              if q == p
              then some (record { get_handler = v.get_handler; data_word = v.data_word })
              else vars' q in
            (
              p,
              vars',
              asked,
              inr (
                there,
                t,
                (λ q. refl),
                rw (here, asked, there) (init-AddedAll answers vs after last t named stop),
              ),
            )
      ]
