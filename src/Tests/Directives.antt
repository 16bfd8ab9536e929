-- ===== src/Tests/Directives.antt =====
-- The theorems on the command tables and on their setters, with nginx's numbers for the places.
use ngx_cpp_dev.Directives.Tables.{discard, module_of}
use Prim.Native.Nat.{bit_or, bit_and}
use ngx_cpp_dev.Base.{ℕ, ◌≡◌, refl, ◌^◌, ◌==◌, Bool, true, some, List, [], ◌∷◌, All, arith, ==_iff}
use ngx_cpp_dev.Base.Int.{pos}
use ngx_cpp_dev.Nginx.{Ptr, NgxStr, ngx_null_string}
use ngx_cpp_dev.NgxScript.{Compiled, NgxComplexValue}
use ngx_cpp_dev.NgxConfig.Arguments.{accepts, all_below, all_below-at}
use ngx_cpp_dev.Directives.{Places}
use ngx_cpp_dev.Directives.Accepted.{SparesLow, SparesArguments, arity, module_of-accepts}
use ngx_cpp_dev.Directives.Setters.{
  Setting, set_echo, set_upstream_pass, set_script_echo, ngx_conf_error,
}
use ngx_cpp_dev.Directives.Setters.Installs.{EchoSet, UpstreamSet, ScriptSet, setters-Installs}
use ngx_cpp_dev.Tests.Data.{str}

abbrev places : Places
places = record {
  http_main = 0x02000000;
  http_srv = 0x04000000;
  http_loc = 0x08000000;
  http_ups = 0x10000000;
  stream_srv = 0x04000000;
  conf_flag = 0x00000200;
}

abbrev spares : ℕ → ℕ → ℕ → Bool
spares p bits k = bit_and (bit_or p bits) (2 ^ k) == bit_and bits (2 ^ k)

spares-SparesLow :
    (p : ℕ) → all_below 256 (λ bits. all_below 8 λ k. spares p bits k) ≡ true → SparesLow p
spares-SparesLow p table bits k b8 k8 = (==_iff _ _).0 (
    all_below-at 8 (spares p bits)
      (all_below-at 256 (λ bits. all_below 8 λ k. spares p bits k) table bits b8) k k8)

places-SparesArguments : SparesArguments places
places-SparesArguments = record {
  http_main = spares-SparesLow 0x02000000 refl;
  http_loc = spares-SparesLow 0x08000000 refl;
  http_ups = spares-SparesLow 0x10000000 refl;
  stream_srv = spares-SparesLow 0x04000000 refl;
  srv_loc = spares-SparesLow 0x0c000000 refl;
  srv_loc_flag = spares-SparesLow 0x0c000200 refl;
}

module_of-accepts_example :
    All (λ c. accepts c.type 1 ≡ (1 == arity c.setter)) (module_of places discard).cmds
module_of-accepts_example = module_of-accepts places discard 1 places-SparesArguments (omega arith)

abbrev setting : {C : Type 0} → C → Setting C
setting own = record {
  conf = record { loc_handler = 0; phases = λ i. some []; init_upstream = 0; flags = 0 };
  own = own;
}

-- A member that is set twice is refused.
abbrev slot : NgxStr → Ptr × NgxStr
slot own = (ngx_conf_error, own)

abbrev upstream_add : NgxStr → Ptr
upstream_add url = 7000

abbrev put_upstream : Ptr → NgxStr → NgxStr
put_upstream p own = own

abbrev compile : NgxStr → Compiled
compile source = record { rc = pos 0; cv = record { value = source; lengths = 0 } }

abbrev words : List NgxStr
words = str 900 4 ∷ str 910 5 ∷ []

abbrev own_value : NgxComplexValue
own_value = record {
  source = ngx_null_string;
  cv = record { value = ngx_null_string; lengths = 0 };
}

setters-Installs_example :
    EchoSet 500 slot (setting ngx_null_string) (set_echo 500 slot (setting ngx_null_string))
    × UpstreamSet 500 upstream_add put_upstream
        (some words)
        (setting ngx_null_string)
        (set_upstream_pass 500 upstream_add put_upstream (some words) (setting ngx_null_string))
    × ScriptSet 500 compile
        (some words)
        (setting own_value)
        (set_script_echo 500 compile (some words) (setting own_value))
setters-Installs_example =
    setters-Installs 500 slot upstream_add put_upstream compile (some words)
      (setting ngx_null_string) (setting own_value)
