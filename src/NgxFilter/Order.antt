-- ===== src/NgxFilter/Order.antt =====
-- The order in which the filters that ngxpp/NgxFilter.hpp installs see a request.
use ngx_cpp_dev.Base.{
  member, Distinct, ◌∙◌, ℕ, zero, suc, ◌<◌, ◌≡◌, refl, false, Option, none, some, List, [], ◌∷◌,
  arith, length,
}
use ngx_cpp_dev.Base.Int.{ℤ}
use ngx_cpp_dev.Base.Run.{ok, Cmd, ◌>>=◌, and_then-congr, out_of_fuel}
use ngx_cpp_dev.NgxFilter.{Filter, nginx_filter, module_filter, Filters, set, next, return_or, call}

-- The modules install their filters; the last one stands first.
abbrev pub installed : List ℕ → Filters
installed [] = record { top = nginx_filter; next_filter = λ t. none }
installed (t ∷ ts) = set t (module_filter t) (installed ts)

abbrev pub top_of : List ℕ → Filter
top_of [] = nginx_filter
top_of (t ∷ ts) = module_filter t

installed-top : (ts : List ℕ) → (installed ts).top ≡ top_of ts
unfolding set
installed-top [] = refl
installed-top (t ∷ ts) = refl

-- Every module in `us` has saved, in `s`, the filter that stands behind it.
abbrev pub Saves : Filters → List ℕ → Type 0
Saves s [] = Unit {0}
Saves s (u ∷ us) = (s.next_filter u ≡ some (top_of us)) × Saves s us

Saves-set :
    (t : ℕ) (p : Filter) (s : Filters) (us : List ℕ)
    → member t us ≡ false
    → Saves s us
    → Saves (set t p s) us
unfolding set
Saves-set t p s [] out h = tt
Saves-set t p s (u ∷ us) out (here, rest) = (ground arith, Saves-set t p s us (ground arith) rest)

installed-Saves : (ts : List ℕ) → Distinct ts → Saves (installed ts) ts
unfolding set
installed-Saves [] d = tt
installed-Saves (t ∷ ts) (out, d) = (
  ground (arith, installed-top ts),
  Saves-set t (module_filter t) (installed ts) ts out (installed-Saves ts d),
)

return_or-congr :
    {R : Type 0} {p q : Cmd R ℤ}
    → ((r : R) → p r ≡ q r)
    → (o : Option ℤ) (r : R) → return_or p o r ≡ return_or q o r
return_or-congr h none r = h r
return_or-congr h (some rc) r = refl

next-saved :
    {R : Type 0} (f : Filter → Cmd R ℤ) (s : Filters) (t : ℕ) (p : Filter) (r : R)
    → s.next_filter t ≡ some p
    → next f s t r ≡ f p r
unfolding next
next-saved f s t p r h = ground arith

module _ {R : Type 0} (nginx : Cmd R ℤ) (own : ℕ → Cmd R (Option ℤ)) where
  -- The request goes from filter to filter until one returns, and else to nginx's own.
  abbrev pub passes : List ℕ → Cmd R ℤ
  passes [] = nginx
  passes (t ∷ ts) = own t >>= return_or (passes ts)

  call-passes :
      (k : ℕ) (s : Filters) (ts : List ℕ) (r : R)
      → Saves s ts
      → length ts < k
      → call nginx own k s (top_of ts) r ≡ passes ts r
  unfolding call next
  call-passes zero s ts r h fuel = absurd (omega arith)
  call-passes (suc k) s [] r h fuel = refl
  call-passes (suc k) s (t ∷ ts) r (here, rest) fuel = and_then-congr (own t r) (
      return_or-congr λ r'.
        next-saved (call nginx own k s) s t (top_of ts) r' here
        ∙ call-passes k s ts r' rest (omega arith))

  -- A response goes through the filters of all installed modules, the last one installed first,
  -- until one of them returns, and ends in nginx's own filter. No module installs itself twice, and
  -- the fuel is more than the number of modules.
  pub call-installed :
      (k : ℕ) (ts : List ℕ) (r : R)
      → Distinct ts
      → length ts < k
      → call nginx own k (installed ts) (installed ts).top r ≡ passes ts r
  call-installed k ts r d fuel =
      rw (installed-top ts) (call-passes k (installed ts) ts r (installed-Saves ts d) fuel)

  -- A module that installs its filter twice in a row, and hands every request on, calls itself for
  -- ever: no fuel is enough.
  pub call-installed_twice :
      (k t : ℕ) (ts : List ℕ) (r : R)
      → ((r : R) → own t r ≡ ok none r)
      → call nginx own k (installed (t ∷ t ∷ ts)) (module_filter t) r ≡ out_of_fuel
  unfolding call next set
  call-installed_twice zero t ts r h = refl
  call-installed_twice (suc k) t ts r h = ground (arith, h r, call-installed_twice k t ts r h)
