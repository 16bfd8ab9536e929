-- ===== src/NgxScript/Same.antt =====
-- ngxpp/NgxScript.hpp saves the evaluation of strings that have no variables.
use ngx_cpp_dev.Base.{◌≡◌, refl, true, none, some, inl, inr, Bool-cases, arith}
use ngx_cpp_dev.Base.Int.{eqb_ℤ}
use ngx_cpp_dev.Base.Run.{Cmd, ok}
use ngx_cpp_dev.Nginx.{NgxStr, is_null, ngx_ok}
use ngx_cpp_dev.Exception.{require, require_rc, raise}
use ngx_cpp_dev.NgxScript.{
  Cv, Compiled, Evaluated, NgxScript, NgxComplexValue, new_script, script_init, value_init,
  script_str, value_str,
}

-- nginx compiles a string with no variables to itself, and the value of such a string is what was
-- compiled.
abbrev pub KeepsRaw : {R : Type 0} → (NgxStr → Compiled) → (Cv → Cmd R Evaluated) → Type 0
KeepsRaw {R} compile evaluate =
    (source : NgxStr)
    → is_null (compile source).cv.lengths ≡ true
    → (r : R) → evaluate (compile source).cv r ≡ ok (record { rc = ngx_ok; value = source }) r

-- A script and a complex value that were made from one source, which nginx compiles, have the same
-- source, and the same string for every request; the script's string of a source with no variables
-- is the source, with no call of nginx. There is memory for the script's value, and nginx's function
-- gives a string with no variables as it is.
pub script-value :
    {R : Type 0} (compile : NgxStr → Compiled) (evaluate : Cv → Cmd R Evaluated) (source : NgxStr)
    (old : NgxComplexValue)
    → KeepsRaw compile evaluate
    → eqb_ℤ (compile source).rc ngx_ok ≡ true
    → (x : NgxScript) × (y : NgxComplexValue) × (script_init compile true source new_script
        ≡ ok tt x)
      × (value_init compile source old ≡ ok tt y)
      × (x.source ≡ y.source)
      × ((r : R) → script_str evaluate x r ≡ value_str evaluate y r)
unfolding script_init value_init script_str value_str require_rc require raise
script-value compile evaluate source old raw good =
    elim (Bool-cases (is_null (compile source).cv.lengths)) [
      | inl bare ↦ (
        record { source = source; cv = none },
        record { source = source; cv = (compile source).cv },
        ground (arith, good, bare),
        ground (arith, good),
        refl,
        λ r. rw (raw source bare r) refl,
      )
      | inr code ↦ (
        record { source = source; cv = some (compile source).cv },
        record { source = source; cv = (compile source).cv },
        ground (arith, good, code),
        ground (arith, good),
        refl,
        λ r. refl,
      )
    ]
