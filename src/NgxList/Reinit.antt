-- ===== src/NgxList/Reinit.antt =====
-- `reinit(n)` of ngxpp/NgxList.hpp, which is `reshape` for the type of the elements that it has.
use ngx_cpp_dev.Base.{ℕ, ◌==◌, ◌<◌, ◌≡◌, ◌⊎◌, inl, inr, refl, [], Option, length, if◌then◌else◌}
use ngx_cpp_dev.Base.Int.{ℤ}
use ngx_cpp_dev.Base.Run.{Cmd, ok, raised, ◌>>=◌, ◌>>◌}
use ngx_cpp_dev.Nginx.{Ptr, ngx_ok, ngx_error}
use ngx_cpp_dev.Exception.{exception_of, require_rc, require}
use ngx_cpp_dev.NgxList.{NgxList, IsValid, PushesBack, items, merge}
use ngx_cpp_dev.NgxList.Growth.{Pushed, merge-Pushed}

module _ {A : Type 0} where
  -- `own_pool`, `nalloc` and `size` are the list's pool, the elements of one of its parts, and
  -- `sizeof(T)`.
  unfoldable pub reinit :
      (ngx_list_init : Ptr → ℕ → ℕ → Cmd (NgxList A) ℤ)
      → (own_pool : Ptr) → (nalloc size n : ℕ) → Cmd (NgxList A) (Unit {0})
  unfolding require_rc
  reinit ngx_list_init own_pool nalloc size n = do
    rc ← ngx_list_init own_pool (if n == 0 then nalloc else n) size
    require_rc rc ngx_ok

  -- nginx's `ngx_list_init` makes the list an empty one, or has no memory.
  abbrev pub InitEmpties : (Ptr → ℕ → ℕ → Cmd (NgxList A) ℤ) → Type 0
  InitEmpties ngx_list_init =
      (p : Ptr) (n size : ℕ) (l : NgxList A)
      → ((l' : NgxList A) × (ngx_list_init p n size l ≡ ok ngx_ok l')
          × IsValid l'
          × (items l' ≡ []))
        ⊎ ((l' : NgxList A) × (ngx_list_init p n size l ≡ ok ngx_error l'))

  -- A list that is merged into one that was made empty is copied: all of it, or the part before the
  -- element for which there is no memory; where there is none for the empty list either, nothing is
  -- merged into it.
  pub reinit-merge :
      (ngx_list_init : Ptr → ℕ → ℕ → Cmd (NgxList A) ℤ)
      (ngx_list_push : A → NgxList A → Option (NgxList A)) (own_pool : Ptr) (nalloc size n k : ℕ)
      (l other : NgxList A)
      → InitEmpties ngx_list_init
      → PushesBack ngx_list_push
      → IsValid other
      → length (items other) < k
      → ((empty : NgxList A) × (items empty ≡ [])
          × ((reinit ngx_list_init own_pool nalloc size n >> merge k ngx_list_push other) l
              ≡ merge k ngx_list_push other empty)
          × Pushed ngx_list_push empty (items other) (merge k ngx_list_push other empty))
        ⊎ ((l' : NgxList A) × (ngx_list_init own_pool (if n == 0 then nalloc else n) size l
              ≡ ok ngx_error l')
            × ((reinit ngx_list_init own_pool nalloc size n >> merge k ngx_list_push other) l
                ≡ raised (exception_of ngx_error) l'))
  unfolding reinit require_rc require
  reinit-merge ngx_list_init ngx_list_push own_pool nalloc size n k l other law pushes valid fuel =
      elim (law own_pool (if n == 0 then nalloc else n) size l) [
        | inl (empty, e, v, hollow) ↦
            inl (
              empty,
              hollow,
              rw e refl,
              merge-Pushed ngx_list_push k empty other pushes v valid fuel,
            )
        | inr (l', full) ↦ inr (l', full, rw full refl)
      ]
