-- ===== src/Value.antt =====
-- ngxpp/NgxValue.hpp: unset configuration values, and the configurations that inherit by them.
pub mod Merge
use ngx_cpp_dev.Base.{ℕ, ◌-◌, ◌^◌, ◌==◌, Bool, ◌||◌, List, [], ◌∷◌, if◌then◌else◌}
use ngx_cpp_dev.Nginx.{NgxStr, is_null}

-- A type whose values can be unset: `NgxUnsetValue`'s conversion to it, and `invalid`.
pub record Settable (T : Type 0) : Type 0 where
  pub unset_value : T
  pub invalid : T → Bool

-- `static_cast<T>(-1)` for an unsigned type of `w` bits, and the comparison with it.
unfoldable pub word_settable : ℕ → Settable ℕ
word_settable w = record { unset_value = 2 ^ w - 1; invalid = λ v. v == 2 ^ w - 1 }

-- `invalid(const ngx_str_t&)`. A string has no conversion from `NgxUnsetValue`; nginx zeroes it.
unfoldable pub str_invalid : NgxStr → Bool
str_invalid v = is_null v.data_ptr || is_null v.len

module _ {T : Type 0} (invalid : T → Bool) where
  -- The new value of `x` after `init(x, v)`.
  unfoldable pub init : T → T → T
  init x v = if invalid x then v else x

  -- The new value of `c` after `merge(c, p, d)`.
  unfoldable pub merge : T → T → T → T
  merge c p d = if invalid c then (if invalid p then d else p) else c

-- The values of the arguments after `unset(v, args...)`, which takes the first and goes on.
unfoldable pub unset : {T : Type 0} → Settable T → List T → List T
unset t [] = []
unset t (v ∷ args) = t.unset_value ∷ unset t args
