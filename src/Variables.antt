-- ===== src/Variables.antt =====
-- http/variables/NdgVariablesHandler.hpp, with `today` of ngxpp/NgxDatetime.hpp and `printf` of
-- ngxpp/NgxString.hpp: the variables that the module adds to nginx's, and how their values are made.
use ngx_cpp_dev.Base.{ℕ, ◌/◌, false, List, [], ◌∷◌}
use ngx_cpp_dev.Base.Int.{ℤ}
use ngx_cpp_dev.Base.Run.{Cmd, ◌>>=◌, ◌>>◌, pure, modify}
use ngx_cpp_dev.Nginx.{Ptr, NgxStr, ngx_null_string, ngx_ok}
use ngx_cpp_dev.Buf.{ptr_diff}
use ngx_cpp_dev.Pool.Objects.{nalloc}
use ngx_cpp_dev.Variable.{VariableValue, set_value}
use ngx_cpp_dev.Variable.Names.{Entry}

-- `NgxString::printf(args...)`; `ngx_snprintf` is nginx's, with its arguments but the bounds given,
-- and returns the end of what it wrote.
unfoldable pub printf : (ngx_snprintf : Ptr → ℕ → Ptr) → NgxStr → NgxStr
printf ngx_snprintf s = record s { len = ptr_diff (ngx_snprintf s.data_ptr s.len) s.data_ptr }

-- `NgxDatetime::today()`: the static buffer of twenty bytes is at `buf`.
unfoldable pub today : (ngx_snprintf : Ptr → ℕ → Ptr) → (buf : Ptr) → NgxStr
today ngx_snprintf buf = record { len = ptr_diff (ngx_snprintf buf 20) buf; data_ptr = buf }

-- The addresses of the four names, and of the functions that make their values.
pub record Names : Type 0 where
  pub today_str : Ptr
  pub rtt_str : Ptr
  pub current_method_str : Ptr
  pub parsed_uri_str : Ptr
  pub get_today : Ptr
  pub get_rtt : Ptr
  pub get_current_method : Ptr
  pub get_parsed_uri : Ptr

abbrev pub entry : Ptr → ℕ → Ptr → ℕ → Entry
entry name len get_handler flags = record {
  name = record { len = len; data_ptr = name };
  get_handler = get_handler;
  data_word = 0;
  flags = flags;
}

-- `get_vars()`
unfoldable pub get_vars : (no_cacheable : ℕ) → Names → List Entry
get_vars no_cacheable a =
    entry a.today_str 5 a.get_today 0
    ∷ entry a.rtt_str 3 a.get_rtt no_cacheable
    ∷ entry a.current_method_str 14 a.get_current_method no_cacheable
    ∷ entry a.parsed_uri_str 10 a.get_parsed_uri no_cacheable
    ∷ record { name = ngx_null_string; get_handler = 0; data_word = 0; flags = 0 }
    ∷ []

-- `get_rtt`: `p` is what the pool gives for ten bytes, and `micros` the `tcpi_rtt` of the connection,
-- whose thousandth is printed.
unfoldable pub get_rtt :
    (ngx_snprintf_d : ℕ → Ptr → ℕ → Ptr) → (p : Ptr) → (micros : ℕ) → Cmd VariableValue ℤ
unfolding nalloc printf set_value
get_rtt ngx_snprintf_d p micros = do
  buf ← nalloc p
  modify (λ _.
      set_value (printf (ngx_snprintf_d (micros / 1000)) (record { len = 10; data_ptr = buf }))
        false)
  pure ngx_ok

unfoldable pub get_today : (ngx_snprintf : Ptr → ℕ → Ptr) → (buf : Ptr) → Cmd VariableValue ℤ
unfolding today set_value
get_today ngx_snprintf buf = do modify (λ _. set_value (today ngx_snprintf buf) false); pure ngx_ok

unfoldable pub get_current_method : (method_name : NgxStr) → Cmd VariableValue ℤ
unfolding set_value
get_current_method method_name = do modify (λ _. set_value method_name false); pure ngx_ok

unfoldable pub get_parsed_uri : (uri : NgxStr) → Cmd VariableValue ℤ
unfolding set_value
get_parsed_uri uri = do modify (λ _. set_value uri false); pure ngx_ok
