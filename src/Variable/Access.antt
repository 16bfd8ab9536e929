-- ===== src/Variable/Access.antt =====
-- What a variable of ngxpp/NgxVariable.hpp reads as after it was set.
use ngx_cpp_dev.Base.{
  ℕ, ◌==◌, ◌≡◌, ◌≢◌, refl, Bool, false, ◌&&◌, ◌||◌, Option, none, some, arith, if◌then◌else◌,
}
use ngx_cpp_dev.Base.Run.{ok}
use ngx_cpp_dev.Nginx.{Ptr, null, NgxStr, ngx_null_string}
use ngx_cpp_dev.Exception.{require_ptr}
use ngx_cpp_dev.Response.{dup}
use ngx_cpp_dev.Variable.{Definition, VariableValue, Values, store_value, set}

-- What was set is read back, and an empty value reads as the null string.
abbrev pub read_back : Ptr → ℕ → NgxStr
read_back copy len = if len == 0 then ngx_null_string else record { len = len; data_ptr = copy }

module _ {S : Type 0} (call_handler : VariableValue → Values S → Values S) where
  -- Setting an unknown variable, one that is not changeable, or one with neither an index nor a
  -- handler fails and changes nothing. The pool has memory for the copy.
  pub set-refused :
      (found : Option Definition) (allocated : Bool) (copy : Ptr) (len : ℕ) (s : Values S)
      → ((d : Definition) → found ≡ some d → (d.changeable && (d.set_handler || d.indexed)) ≡ false)
      → copy ≢ null
      → set call_handler found allocated copy len s ≡ ok false s
  unfolding set store_value dup require_ptr
  set-refused none allocated copy len s h room = refl
  set-refused (some d) allocated copy len s h room = let closed = h d refl in ground arith
