-- ===== src/NgxModule/Isolation.antt =====
-- The contexts of different modules, by ngxpp/NgxModule.hpp.
use ngx_cpp_dev.Base.{
  ℕ, ◌==◌, ◌≡◌, refl, true, false, inl, inr, some, arith, Bool-cases, if◌then◌else◌,
}
use ngx_cpp_dev.Base.Run.{Run, ok, raised}
use ngx_cpp_dev.Nginx.{Ptr, is_null, ngx_error}
use ngx_cpp_dev.Exception.{exception_of, require_ptr, require, raise}
use ngx_cpp_dev.NgxModule.{Session, empty, clear, set_ctx, alloc, data_of}

module _ {T : Type 0} where
  -- A pointer to a context that the session holds from now on for the module `index`, the state in
  -- which it does, and the contexts of all other modules as they were.
  pub record Holds (index : ℕ) (s : Session T) (q : Ptr) (t : Session T) : Type 0 where
    pub kept : t.ctx index ≡ q
    pub is_set : is_null q ≡ false
    pub others : (i : ℕ) → (i == index) ≡ false → t.ctx i ≡ s.ctx i

  abbrev pub with_ctx : T → Ptr → ℕ → Session T → Session T
  with_ctx made p index s =
      set_ctx index p (record s { objects = λ q. if q == p then some made else s.objects q })

  data_of-made :
      (made : T) (p : Ptr) (index : ℕ) (s : Session T)
      → is_null (s.ctx index) ≡ true
      → is_null p ≡ false
      → data_of made p index s ≡ ok p (with_ctx made p index s)
  unfolding data_of alloc empty require_ptr require raise
  data_of-made made p index s bare given = ground arith

  data_of-no_memory :
      (made : T) (p : Ptr) (index : ℕ) (s : Session T)
      → is_null (s.ctx index) ≡ true
      → is_null p ≡ true
      → data_of made p index s ≡ raised (exception_of ngx_error) s
  unfolding data_of alloc empty require_ptr require raise
  data_of-no_memory made p index s bare out = ground arith

  data_of-full :
      (made : T) (p : Ptr) (index : ℕ) (s : Session T)
      → is_null (s.ctx index) ≡ false
      → data_of made p index s ≡ ok (s.ctx index) s
  unfolding data_of empty
  data_of-full made p index s full = ground arith

  with_ctx-Holds :
      (made : T) (p : Ptr) (index : ℕ) (s : Session T)
      → is_null p ≡ false
      → Holds index s p (with_ctx made p index s)
  with_ctx-Holds made p index s given = record {
    kept = ground arith;
    is_set = given;
    others = λ i ne. ground arith;
  }

  -- What `data` does: an existing context stays as it is; else the new one is at `p`, or there is no
  -- memory and an exception.
  abbrev pub Asked : T → Ptr → ℕ → Session T → Run (Session T) Ptr → Type 0
  Asked made p index s r =
      if is_null (s.ctx index)
      then (if is_null p
          then (r ≡ raised (exception_of ngx_error) s)
          else ((t : Session T) × (r ≡ ok p t) × Holds index s p t × (t.objects p ≡ some made)))
      else ((r ≡ ok (s.ctx index) s) × Holds index s (s.ctx index) s)

  -- `data` gives a module the context it has, and else makes one, so that the module has it from
  -- then on; no other module's context changes. Without memory it throws and changes nothing.
  pub data_of-Asked :
      (made : T) (p : Ptr) (index : ℕ) (s : Session T)
      → Asked made p index s (data_of made p index s)
  data_of-Asked made p index s = elim (Bool-cases (is_null (s.ctx index))) [
    | inl bare ↦ elim (Bool-cases (is_null p)) [
      | inl out ↦ rw (bare, out) (data_of-no_memory made p index s bare out)
      | inr given ↦
          rw (bare, given)
            (
              with_ctx made p index s,
              data_of-made made p index s bare given,
              with_ctx-Holds made p index s given,
              ground arith,
            )
    ]
    | inr full ↦ rw full (
      data_of-full made p index s full,
      record { kept = refl; is_set = full; others = λ i ne. refl },
    )
  ]

  -- After the context of a module was cleared, and then asked for, it is a new one, and the contexts
  -- of the other modules are as they were before. The pool's pointer is not null.
  pub clear-data_of :
      (made : T) (p : Ptr) (index : ℕ) (s : Session T)
      → is_null p ≡ false
      → (t : Session T) × (data_of made p index (clear index s) ≡ ok p t)
        × Holds index s p t
        × (t.objects p ≡ some made)
  unfolding clear
  clear-data_of made p index s given = (
    with_ctx made p index (clear index s),
    data_of-made made p index (clear index s) (ground arith) given,
    record { kept = ground arith; is_set = given; others = λ i ne. ground arith },
    ground arith,
  )
