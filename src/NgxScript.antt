-- ===== src/NgxScript.antt =====
-- ngxpp/NgxScript.hpp and ngxpp/NgxComplexValue.hpp: a string with variables, compiled when the
-- configuration is read. nginx compiles and evaluates; `Cv` is its `ngx_complex_value_t`.
pub mod Same
use ngx_cpp_dev.Base.{ℕ, Bool, Option, none, some, if◌then◌else◌}
use ngx_cpp_dev.Base.Int.{ℤ}
use ngx_cpp_dev.Base.Run.{Cmd, ◌>>=◌, ◌>>◌, pure, modify}
use ngx_cpp_dev.Nginx.{Ptr, is_null, NgxStr, ngx_null_string, ngx_ok, ngx_error}
use ngx_cpp_dev.Exception.{require, require_rc}

-- The fields of a compiled value: the source, and the code, null for a string with no variables.
pub record Cv : Type 0 where
  pub value : NgxStr
  pub lengths : Ptr

-- What `ngx_compile_complex_value` returns and writes, and what `ngx_complex_value` does.
pub record Compiled : Type 0 where
  pub rc : ℤ
  pub cv : Cv

pub record Evaluated : Type 0 where
  pub rc : ℤ
  pub value : NgxStr

pub record NgxScript : Type 0 where
  pub source : NgxStr
  pub cv : Option Cv

pub record NgxComplexValue : Type 0 where
  pub source : NgxStr
  pub cv : Cv

abbrev pub new_script : NgxScript
new_script = record { source = ngx_null_string; cv = none }

-- `NgxScript::init(cf, source)`; `given` says whether the pool has memory.
unfoldable pub script_init :
    (ngx_compile_complex_value : NgxStr → Compiled)
    → (given : Bool) → (source : NgxStr) → Cmd NgxScript (Unit {0})
unfolding require require_rc
script_init ngx_compile_complex_value given source = do
  modify (λ x. record x { source = source })
  let compiled = ngx_compile_complex_value source
  require_rc compiled.rc ngx_ok
  if is_null compiled.cv.lengths
      then pure tt
      else do require given ngx_error; modify (λ x. record x { cv = some compiled.cv })

-- `NgxComplexValue::init(cf, source)`
unfoldable pub value_init :
    (ngx_compile_complex_value : NgxStr → Compiled)
    → (source : NgxStr) → Cmd NgxComplexValue (Unit {0})
unfolding require_rc
value_init ngx_compile_complex_value source = do
  modify (λ x. record x { source = source; cv = (ngx_compile_complex_value source).cv })
  require_rc (ngx_compile_complex_value source).rc ngx_ok

module _ {R : Type 0} (ngx_complex_value : Cv → Cmd R Evaluated) where
  abbrev pub evaluate : Cv → Cmd R NgxStr
  evaluate cv = do e ← ngx_complex_value cv; require_rc e.rc ngx_ok; pure e.value

  -- `NgxScript::str(r)`
  unfoldable pub script_str : NgxScript → Cmd R NgxStr
  unfolding require_rc
  script_str x = elim x.cv [ none ↦ pure x.source | some cv ↦ evaluate cv ]

  -- `NgxComplexValue::str(r)`
  unfoldable pub value_str : NgxComplexValue → Cmd R NgxStr
  unfolding require_rc
  value_str x = evaluate x.cv
