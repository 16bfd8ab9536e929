-- ===== src/HttpTest/Rounds.antt =====
-- How the timer of http/test/NdgTestHandler.hpp goes on.
use ngx_cpp_dev.Value.{word_settable}
use ngx_cpp_dev.Base.{
  ◌≡◌, refl, sym, ◌==◌, ◌≢◌, ◌⊎◌, inl, inr, none, some, true, false, List, [], ◌∷◌, arith,
  if◌then◌else◌,
}
use ngx_cpp_dev.Base.Run.{Cmd, ok, ◌>>◌, pure}
use ngx_cpp_dev.Nginx.{Ptr}
use ngx_cpp_dev.Timer.{Timers, add, init, acquire, release, call, run_event, callback, finish_call}
use ngx_cpp_dev.HttpTest.{Callback, timer_call, run_callback, timer}

-- nginx calls the handler of an event whose time has come.
abbrev pub expired : Ptr → Timers Callback → Timers Callback
expired p s = record s {
  events = λ q.
      if q == p
      then elim (s.events p) [
        | none ↦ none
        | some ev ↦ some (record ev { timedout = true; started = none })
      ]
      else s.events q;
}

-- The first timer that waits fires.
abbrev pub fire : (fresh : Ptr) → Cmd (Timers Callback) (Unit {0})
fire fresh s = elim s.pending [ [] ↦ ok tt s | p ∷ ps ↦ call (run_callback fresh) p (expired p s) ]

-- A round for every address that the factory would give.
abbrev pub rounds : List Ptr → Cmd (Timers Callback) (Unit {0})
rounds [] = pure tt
rounds (fresh ∷ more) = fire fresh >> rounds more

-- The one timer that waits is `a`, for a second, and the one event in the pool is `b`.
pub record Waits (a b : Ptr) (s : Timers Callback) : Type 0 where
  pub pending : s.pending ≡ a ∷ []
  pub pool : s.pool ≡ b ∷ []
  pub armed :
      s.events a ≡ some (record { func = timer_call; started = some 1000; timedout = false })

abbrev pub no_timers : Timers Callback
no_timers = record { pool = []; pending = []; events = λ p. none }

swap_sides {ℓ κ} : {A : Type ℓ} {B : Type κ} → A ⊎ B → B ⊎ A
swap_sides (inl a) = inr a
swap_sides (inr b) = inl b

fire-Waits :
    (fresh a b : Ptr) (s : Timers Callback)
    → a ≢ b
    → Waits a b s
    → (t : Timers Callback) × (fire fresh s ≡ ok tt t) × Waits b a t
unfolding run_callback call word_settable init run_event callback finish_call add acquire release
fire-Waits fresh a b s ne w =
    let t : Timers Callback = record {
      pool = a ∷ [];
      pending = b ∷ [];
      events = λ q.
          if q == b
          then some (record { func = timer_call; started = some 1000; timedout = false })
          else (expired a s).events q;
    } in
    (t, ground arith, record { pending = refl; pool = refl; armed = ground arith })

rounds-Waits :
    (fs : List Ptr) (a b : Ptr) (s : Timers Callback)
    → a ≢ b
    → Waits a b s
    → (t : Timers Callback) × (rounds fs s ≡ ok tt t) × (Waits a b t ⊎ Waits b a t)
rounds-Waits [] a b s ne w = (s, refl, inl w)
rounds-Waits (fresh ∷ fs) a b s ne w =
    let (t, e, w') = fire-Waits fresh a b s ne w in
    let (u, e', either) = rounds-Waits fs b a t (λ x. ne (sym x)) w' in
    (u, rw e e', swap_sides either)

first_round :
    (a b : Ptr)
    → a ≢ b
    → (t : Timers Callback) × ((timer a >> fire b) no_timers ≡ ok tt t) × Waits b a t
unfolding timer run_callback call word_settable init run_event callback finish_call add acquire
    release
first_round a b ne =
    let t : Timers Callback = record {
      pool = a ∷ [];
      pending = b ∷ [];
      events = λ q.
          if q == b
          then some (record { func = timer_call; started = some 1000; timedout = false })
          else (expired a (add a 2000 timer_call no_timers)).events q;
    } in
    (t, ground arith, record { pending = refl; pool = refl; armed = ground arith })

-- The timer never stops and does not pile up: however often it fires, one event waits for a second
-- and one is in the pool, and these are the first two that the factory made. Every timer fires when
-- nginx calls its handler, and the two addresses differ.
pub rounds-two :
    (a b : Ptr) (fs : List Ptr)
    → a ≢ b
    → (t : Timers Callback) × ((timer a >> rounds (b ∷ fs)) no_timers ≡ ok tt t)
      × (Waits a b t ⊎ Waits b a t)
unfolding timer
rounds-two a b fs ne =
    let (s, e, w) = first_round a b ne in
    let (t, e', either) = rounds-Waits fs b a s (λ x. ne (sym x)) w in
    (t, rw e e', swap_sides either)
