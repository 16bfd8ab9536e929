-- ===== src/Variable.antt =====
-- ngxpp/NgxVariable.hpp: the value of a variable of a request, and how it is set by name. `S` is the
-- state that nginx's set handlers change; the values of the indexed variables are a function.
pub mod Access
pub mod Names
use ngx_cpp_dev.Base.{ℕ, ◌==◌, Bool, true, false, not, ◌&&◌, Option, none, some, if◌then◌else◌}
use ngx_cpp_dev.Base.Run.{Cmd, ◌>>=◌, ◌>>◌, pure, modify}
use ngx_cpp_dev.Nginx.{Ptr, null, NgxStr, ngx_null_string, ngx_error}
use ngx_cpp_dev.Exception.{require}
use ngx_cpp_dev.Response.{dup}

-- `ngx_variable_value_t`
pub record VariableValue : Type 0 where
  pub len : ℕ
  pub data_ptr : Ptr
  pub valid : Bool
  pub not_found : Bool
  pub no_cacheable : Bool

-- `ngx_http_variable_t`: its flags, whether it has a `set_handler`, and its index.
pub record Definition : Type 0 where
  pub changeable : Bool
  pub indexed : Bool
  pub set_handler : Bool
  pub index : ℕ

pub record Values (S : Type 0) : Type 0 where
  pub variables : ℕ → VariableValue
  pub others : S

-- `NgxVariableValue::set(str, clear)`, which writes every field.
unfoldable pub set_value : NgxStr → Bool → VariableValue
set_value str clear = record {
  len = if clear then 0 else str.len;
  data_ptr = if clear then null else str.data_ptr;
  valid = not clear;
  not_found = clear;
  no_cacheable = false;
}

-- `valid()` and `str()` of a value that is there.
unfoldable pub valid : VariableValue → Bool
valid v = v.valid && not v.not_found

unfoldable pub str : VariableValue → NgxStr
unfolding valid
str v = if valid v then record { len = v.len; data_ptr = v.data_ptr } else ngx_null_string

module _ {S : Type 0} (call_handler : VariableValue → Values S → Values S) where
  abbrev pub store : ℕ → VariableValue → Values S → Values S
  store i v s = record s { variables = λ j. if j == i then v else s.variables j }

  -- Where the value goes: `allocated` says whether the pool has memory for one.
  unfoldable pub store_value : (allocated : Bool) → Definition → NgxStr → Bool → Cmd (Values S) Bool
  unfolding require
  store_value allocated d val clear =
      if d.set_handler
      then (do require allocated ngx_error; modify (call_handler (set_value val clear)); pure true)
      else if d.indexed
      then (do modify (store d.index (set_value val clear)); pure true)
      else pure false

  -- `NgxVariable::set(value)` for a value of `len` characters; `found` is what `ngx_hash_find` finds,
  -- and `copy` where the pool puts the copy of the value.
  unfoldable pub set :
      (found : Option Definition)
      → (allocated : Bool) → (copy : Ptr) → (len : ℕ) → Cmd (Values S) Bool
  unfolding store_value dup
  set none allocated copy len = pure false
  set (some d) allocated copy len =
      if not d.changeable
      then pure false
      else do val ← dup copy len; store_value allocated d val (len == 0)
