-- ===== src/NgxFilter.antt =====
-- ngxpp/NgxFilter.hpp and ngxpp/NgxStreamFilter.hpp: how modules put their filters in front of
-- nginx's. A filter is nginx's own, or the one of a module, which the template's `Tag` names; here
-- tags are numbers. `next_filter` is the static variable of `next`, null until it is set.
pub mod Order
use ngx_cpp_dev.Base.{ℕ, zero, suc, ◌==◌, Option, none, some, if◌then◌else◌, List, [], ◌∷◌}
use ngx_cpp_dev.Base.Int.{ℤ}
use ngx_cpp_dev.Base.Run.{Cmd, fault, out_of_fuel, ◌>>=◌, pure}

pub data Filter : Type 0 where
  nginx_filter : Filter
  module_filter : ℕ → Filter

-- A chain of filters: nginx's pointer to the first, and what each module has saved.
pub record Filters : Type 0 where
  pub top : Filter
  pub next_filter : ℕ → Option Filter

-- `set(top, p)` of the module `tag`
unfoldable pub set : (tag : ℕ) → Filter → Filters → Filters
set tag p s = record {
  top = p;
  next_filter = λ t. if t == tag then some s.top else s.next_filter t;
}

abbrev pub set_given : ℕ → Option Filter → Filters → Filters
set_given tag none s = s
set_given tag (some p) s = set tag p s

-- nginx's chains: of header filters, and of body filters.
pub record Tops : Type 0 where
  pub header : Filters
  pub body : Filters

-- `NgxFilter::init(header_filter, body_filter)`
unfoldable pub init : (tag : ℕ) → (header_filter body_filter : Option Filter) → Tops → Tops
unfolding set
init tag header_filter body_filter s = record {
  header = set_given tag header_filter s.header;
  body = set_given tag body_filter s.body;
}

-- `NgxRequestFilter::init(body_filter)`, and `NgxFilter::init(filter)` of a stream.
unfoldable pub request_init : (tag : ℕ) → Option Filter → Filters → Filters
unfolding set
request_init tag body_filter s = set_given tag body_filter s

unfoldable pub stream_init : (tag : ℕ) → Option Filter → Filters → Filters
unfolding set
stream_init tag filter s = set_given tag filter s

-- `next(r)` of the module `tag`, where `call` calls a filter: a null pointer is a fault.
unfoldable pub next : {R : Type 0} (call : Filter → Cmd R ℤ) → Filters → ℕ → Cmd R ℤ
next call s tag = elim (s.next_filter tag) [ none ↦ (λ _. fault) | some p ↦ call p ]

abbrev pub return_or : {R : Type 0} → Cmd R ℤ → Option ℤ → Cmd R ℤ
return_or rest none = rest
return_or rest (some rc) = pure rc

-- What the filters do to a request: nginx's own ends the chain, and the one of a module returns, or
-- hands the request to `next`. The fuel is for the calls that follow.
module _ {R : Type 0} (nginx : Cmd R ℤ) (own : ℕ → Cmd R (Option ℤ)) where
  unfoldable pub call : ℕ → Filters → Filter → Cmd R ℤ
  unfolding next
  call zero s p = λ _. out_of_fuel
  call (suc k) s nginx_filter = nginx
  call (suc k) s (module_filter tag) = own tag >>= return_or (next (call k s) s tag)
