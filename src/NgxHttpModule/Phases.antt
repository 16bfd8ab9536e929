-- ===== src/NgxHttpModule/Phases.antt =====
-- What modules that register with ngxpp/NgxHttpModule.hpp put into nginx's phases, and what the
-- handler of legacy/shmem/NdgShmemHandler.hpp counts there.
use ngx_cpp_dev.Base.{
  ℕ, ◌<◌, ◌+◌, ◌%◌, ◌^◌, ◌==◌, ◌≡◌, refl, sym, ap, ◌∙◌, false, true, Option, some, List, [], ◌∷◌,
  ◌++◌, inl, inr, Bool-cases, append_assoc, append-nil, arith, ltb, All, if◌then◌else◌,
}
use ngx_cpp_dev.Base.Run.{pure, Cmd, ok, for_each, ◌>>◌}
use ngx_cpp_dev.Nginx.{Ptr}
use ngx_cpp_dev.NgxArray.{Array, push}
use ngx_cpp_dev.NgxHttpModule.{Conf, phase_handler, shmem_handler}

-- A handler that a module registers, and its phase.
pub record Registration : Type 0 where
  pub handler : Ptr
  pub phase : ℕ

-- The handlers of phase `i`, in the order of their registrations.
abbrev pub handlers_of : ℕ → List Registration → List Ptr
handlers_of i [] = []
handlers_of i (r ∷ rs) = if r.phase == i then r.handler ∷ handlers_of i rs else handlers_of i rs

-- Every phase has the handlers of `before` and then those of `rs`; the rest of the configuration
-- is that of `c`.
pub record Installed (before : ℕ → List Ptr) (rs : List Registration) (c d : Conf) : Type 0 where
  pub in_order : (i : ℕ) → d.phases i ≡ some (before i ++ handlers_of i rs)
  pub loc_handler : d.loc_handler ≡ c.loc_handler
  pub init_upstream : d.init_upstream ≡ c.init_upstream
  pub flags : d.flags ≡ c.flags

module _ (ngx_array_push : Ptr → List Ptr → Option (List Ptr)) (log_phase : ℕ) where
  abbrev pub register_all : List Registration → Cmd Conf (Unit {0})
  register_all = for_each (λ r. phase_handler ngx_array_push log_phase r.handler r.phase)

  module _ (pushes : (x : Ptr) (xs : List Ptr) → ngx_array_push x xs ≡ some (xs ++ x ∷ [])) where
    abbrev after : Registration → (ℕ → List Ptr) → ℕ → List Ptr
    after r before i = if i == r.phase then before r.phase ++ r.handler ∷ [] else before i

    push-ok :
        (x : Ptr) (xs : List Ptr) → push ngx_array_push x (some xs) ≡ ok tt (some (xs ++ x ∷ []))
    unfolding push
    push-ok x xs = rw (push, pushes x xs) refl

    phase_handler-ok :
        (r : Registration) (before : ℕ → List Ptr) (c : Conf)
        → ((i : ℕ) → c.phases i ≡ some (before i))
        → ltb log_phase r.phase ≡ false
        → phase_handler ngx_array_push log_phase r.handler r.phase c
          ≡ ok tt (record c {
            phases =
                λ i. if i == r.phase then some (before r.phase ++ r.handler ∷ []) else c.phases i;
          })
    unfolding phase_handler
    phase_handler-ok r before c holds phase =
        rw (phase, holds r.phase, push-ok r.handler (before r.phase)) refl

    after-handlers_of :
        (r : Registration) (before : ℕ → List Ptr) (rs : List Registration) (i : ℕ)
        → after r before i ++ handlers_of i rs ≡ before i ++ handlers_of i (r ∷ rs)
    after-handlers_of r before rs i = elim (Bool-cases (r.phase == i)) [
      | inl hit ↦
          let same : r.phase ≡ i = ground arith in
          let back : (i == r.phase) ≡ true = ground arith in
          let at_i = ap before same in
          rw (hit, back, at_i) (append_assoc (before i) (r.handler ∷ []) (handlers_of i rs))
      | inr miss ↦ let back : (i == r.phase) ≡ false = ground arith in rw (miss, back) refl
    ]

    after-holds :
        (r : Registration) (before : ℕ → List Ptr) (phases : ℕ → Array Ptr)
        → ((i : ℕ) → phases i ≡ some (before i))
        → (i : ℕ)
        → (if i == r.phase then some (before r.phase ++ r.handler ∷ []) else phases i)
          ≡ some (after r before i)
    after-holds r before phases holds i = ground (arith, holds i)

    -- Modules that register their handlers one after another leave in every phase the handlers that
    -- were there and then theirs, in the order of registration, and nothing else of the
    -- configuration changes. The phases' arrays are there, no phase comes after the last one, and
    -- `ngx_array_push` adds its element at the end.
    pub register_all-Installed :
        (rs : List Registration) (before : ℕ → List Ptr) (c : Conf)
        → ((i : ℕ) → c.phases i ≡ some (before i))
        → All (λ r. ltb log_phase r.phase ≡ false) rs
        → (d : Conf) × (register_all rs c ≡ ok tt d) × Installed before rs c d
    register_all-Installed [] before c holds phases = (
      c,
      refl,
      record {
        in_order = λ i. holds i ∙ ap some (sym (append-nil (before i)));
        loc_handler = refl;
        init_upstream = refl;
        flags = refl;
      },
    )
    register_all-Installed (r ∷ rs) before c holds (phase, phases) =
        let next : Conf = record c {
          phases =
              λ i. if i == r.phase then some (before r.phase ++ r.handler ∷ []) else c.phases i;
        } in
        let (d, e, installed) =
          register_all-Installed rs (after r before) next (after-holds r before c.phases holds)
            phases in
        (
          d,
          rw (phase_handler-ok r before c holds phase) e,
          record {
            in_order = λ i. installed.in_order i ∙ ap some (after-handlers_of r before rs i);
            loc_handler = installed.loc_handler;
            init_upstream = installed.init_upstream;
            flags = installed.flags;
          },
        )

-- The bytes that a sequence of connections has sent.
abbrev pub total : List ℕ → ℕ
total [] = 0
total (n ∷ ns) = n + total ns

abbrev pub count_all : List ℕ → Cmd ℕ (Unit {0})
count_all = for_each (λ n. shmem_handler n >> pure tt)

-- However many requests end, the shared counter grows by the sum of the bytes that their connections
-- had sent, modulo `2 ^ 64`. The counter has 64 bits.
pub count_all-total :
    (ns : List ℕ) (counter : ℕ)
    → counter < 2 ^ 64
    → count_all ns counter ≡ ok tt ((counter + total ns) % 2 ^ 64)
unfolding shmem_handler
count_all-total [] counter fits = ap (ok tt) (omega arith)
count_all-total (n ∷ ns) counter fits =
    count_all-total ns ((counter + n) % 2 ^ 64) (omega arith) ∙ ap (ok tt) (omega arith)
