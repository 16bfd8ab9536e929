-- ===== src/Exception.antt =====
-- ngxpp/NgxException.hpp: the checks that turn a return code, a condition or a pointer of nginx
-- into an exception. The overloads of `require` are three definitions.
use ngx_cpp_dev.Base.{◌≡◌, Bool, not, [], arith, if◌then◌else◌}
use ngx_cpp_dev.Base.Int.{ℤ, eqb_ℤ}
use ngx_cpp_dev.Base.Run.{NgxException, Cmd, ok, raised}
use ngx_cpp_dev.Nginx.{Ptr, is_null}

abbrev pub exception_of : ℤ → NgxException
exception_of rc = record { code = rc; msg = [] }

module _ {ℓ} {S : Type ℓ} where
  -- `raise(rc, msg)` with the empty message that every caller of the repository leaves it at.
  unfoldable pub raise {κ} : {A : Type κ} → ℤ → Cmd S A
  raise rc = raised (exception_of rc)

  -- `require(bool cond, ngx_int_t e)`
  unfoldable pub require : Bool → ℤ → Cmd S (Unit {0})
  unfolding raise
  require cond e = if not cond then raise e else ok tt

  -- `require(ngx_int_t rc, ngx_int_t x)`
  unfoldable pub require_rc : ℤ → ℤ → Cmd S (Unit {0})
  unfolding require
  require_rc rc x = require (eqb_ℤ rc x) rc

  -- `require(T* p, ngx_int_t e)`
  unfoldable pub require_ptr : Ptr → ℤ → Cmd S (Unit {0})
  unfolding require
  require_ptr p e = require (not (is_null p)) e

  -- `fail(bool cond, ngx_int_t e)`
  unfoldable pub fail : Bool → ℤ → Cmd S (Unit {0})
  unfolding raise
  fail cond e = if cond then raise e else ok tt

  -- `fail` is `require` of the opposite condition.
  pub fail-eq-require : (b : Bool) (e : ℤ) (s : S) → fail b e s ≡ require (not b) e s
  unfolding fail require
  fail-eq-require b e s = ground arith
