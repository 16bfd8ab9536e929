-- ===== src/SubRequest/Own.antt =====
-- What a subrequest made by ngxpp/NgxSubRequest.hpp has of its own.
use ngx_cpp_dev.Base.{if◌then◌else◌, ◌&&◌, ltb, ℕ, ◌<◌, ◌==◌, ◌≡◌, refl, true, false, arith}
use ngx_cpp_dev.Base.Int.{ℤ}
use ngx_cpp_dev.Base.Run.{Cmd, ok}
use ngx_cpp_dev.Nginx.{Ptr, is_null, ngx_ok}
use ngx_cpp_dev.Exception.{require_rc, require_ptr, require}
use ngx_cpp_dev.SubRequest.{State, PostSubrequest, mend_headers, copy_variables, create}

-- The subrequest's header list ends in itself, if the parent's was one part; its variables are
-- copies at `p` of the parent's in `t`, and no array but that one has changed.
pub record HasOwn (nelts : ℕ) (p : Ptr) (t u : State) : Type 0 where
  pub own_list :
      (t.parent.headers_last == t.parent.headers_part) ≡ true
      → u.sub.headers_last ≡ u.sub.headers_part
  pub own_array : u.sub.variables ≡ p
  pub copies : (i : ℕ) → i < nelts → u.arrays p i ≡ t.arrays t.parent.variables i
  pub others : (q : Ptr) → (q == p) ≡ false → (i : ℕ) → u.arrays q i ≡ t.arrays q i
  pub parent_same : u.parent ≡ t.parent

abbrev with_copies : ℕ → Ptr → State → State
with_copies nelts p s = record s {
  sub = record s.sub { variables = p };
  arrays = λ q i. if (q == p) && ltb i nelts then s.arrays s.parent.variables i else s.arrays q i;
}

create-ok :
    (ngx_http_subrequest : PostSubrequest → Cmd State ℤ) (nelts : ℕ) (psr data_ptr p : Ptr)
    (s t : State)
    → is_null psr ≡ false
    → is_null p ≡ false
    → ngx_http_subrequest (record { data_ptr = data_ptr }) s ≡ ok ngx_ok t
    → create ngx_http_subrequest true nelts psr data_ptr p s
      ≡ ok tt (with_copies nelts p (mend_headers t))
unfolding create copy_variables require_rc require_ptr require
create-ok nginx nelts psr data_ptr p s t given given' made = rw (given, made, given') refl

-- A subrequest that nginx creates, with copies of the parent's variables asked for, has a header list
-- and variables of its own: the list ends in the subrequest's own part where the parent's list is
-- one part, the variables are equal to the parent's and lie in new memory, and nothing of the parent
-- changes. The pool has memory.
pub create-HasOwn :
    (ngx_http_subrequest : PostSubrequest → Cmd State ℤ) (nelts : ℕ) (psr data_ptr p : Ptr)
    (s t : State)
    → is_null psr ≡ false
    → is_null p ≡ false
    → ngx_http_subrequest (record { data_ptr = data_ptr }) s ≡ ok ngx_ok t
    → (u : State) × (create ngx_http_subrequest true nelts psr data_ptr p s ≡ ok tt u)
      × HasOwn nelts p t u
create-HasOwn nginx nelts psr data_ptr p s t given given' made = (
  with_copies nelts p (mend_headers t),
  create-ok nginx nelts psr data_ptr p s t given given' made,
  record {
    own_list = λ one. ground arith;
    own_array = refl;
    copies = λ i lt. ground arith;
    others = λ q ne i. ground arith;
    parent_same = ground arith;
  },
)
