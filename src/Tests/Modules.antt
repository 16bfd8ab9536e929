-- ===== src/Tests/Modules.antt =====
-- The theorems on how modules are put together: their filters, commands, contexts and variables.
use ngx_cpp_dev.NgxHttpModule
use ngx_cpp_dev.NgxHttpModule.Phases.{Registration, Installed, register_all, register_all-Installed}
use ngx_cpp_dev.Base.{
  ◌++◌, List, ℕ, ◌+◌, ◌==◌, ◌≡◌, refl, none, some, Option, [], ◌∷◌, arith, leb, ◌&&◌, if◌then◌else◌,
}
use ngx_cpp_dev.Base.Int.{ℤ, pos}
use ngx_cpp_dev.Base.Run.{Cmd, ok}
use ngx_cpp_dev.Nginx.{Ptr, NgxStr, ngx_ok}
use ngx_cpp_dev.NgxFilter.{call}
use ngx_cpp_dev.NgxFilter.Order.{installed, passes, call-installed}
use ngx_cpp_dev.NgxConfig.{take}
use ngx_cpp_dev.NgxConfig.Arguments.{accepts, take-accepts}
use ngx_cpp_dev.NgxModule.{Session, data_of}
use ngx_cpp_dev.NgxModule.Isolation.{Asked, data_of-Asked}
use ngx_cpp_dev.Variable.Names.{Entry, AddedVariable, init}
use ngx_cpp_dev.Variable.Names.Added.{AddedAll, init-AddedAll}
use ngx_cpp_dev.NgxScript.{Cv, Compiled, Evaluated, NgxComplexValue}
use ngx_cpp_dev.NgxScript.Same.{KeepsRaw}
use ngx_cpp_dev.Tests.Data.{str}

-- Two modules' filters: the first hands the request on, the second returns 7 on request 5.
abbrev last_filter : Cmd ℕ ℤ
last_filter r = ok (pos 0) (r + 100)

abbrev own_filter : ℕ → Cmd ℕ (Option ℤ)
own_filter t r = if t == 2 then ok none (r + 1) else ok (if r == 5 then some (pos 7) else none) r

call-installed_example :
    call last_filter own_filter 3 (installed (2 ∷ 1 ∷ [])) (installed (2 ∷ 1 ∷ [])).top 4
    ≡ passes last_filter own_filter (2 ∷ 1 ∷ []) 4
call-installed_example =
    call-installed last_filter own_filter 3 (2 ∷ 1 ∷ []) 4 (refl, (refl, tt)) (omega arith)

take-accepts_example : accepts (take (pos 1) (pos 3)) 2 ≡ (leb 1 2 && leb 2 3)
take-accepts_example = take-accepts 1 3 2 (omega arith) (omega arith) (omega arith)

abbrev session : Session ℕ
session = record {
  ctx = λ i. if i == 4 then 900 else 0;
  objects = λ p. if p == 900 then some 1 else none;
}

data_of-Asked_example : Asked 0 910 3 session (data_of 0 910 3 session)
data_of-Asked_example = data_of-Asked 0 910 3 session

-- A variable goes to the address of its name.
abbrev add_variable : NgxStr → ℕ → Cmd (Ptr → Option AddedVariable) Ptr
add_variable name flags vars = ok name.data_ptr vars

abbrev variable : Ptr → ℕ → Entry
variable p len = record { name = str p len; get_handler = p + 1; data_word = 0; flags = 0 }

abbrev no_variables : Ptr → Option AddedVariable
no_variables p = none

init-AddedAll_example :
    AddedAll add_variable
      (variable 600 5 ∷ variable 610 3 ∷ [])
      no_variables
      (init add_variable (some (variable 600 5 ∷ variable 610 3 ∷ variable 0 0 ∷ [])) no_variables)
init-AddedAll_example =
    init-AddedAll add_variable (λ name flags vars. (name.data_ptr, vars, refl))
      (variable 600 5 ∷ variable 610 3 ∷ []) [] (variable 0 0) no_variables (refl, (refl, tt)) refl

-- Strings of more than three characters have variables in them.
abbrev compile : NgxStr → Compiled
compile s = record {
  rc = ngx_ok;
  cv = record { value = s; lengths = if leb s.len 3 then 0 else 70 };
}

abbrev evaluate : Cv → Cmd ℕ Evaluated
evaluate cv r =
    ok (record { rc = ngx_ok; value = if cv.lengths == 0 then cv.value else str 80 r }) r

compile-KeepsRaw : KeepsRaw compile evaluate
compile-KeepsRaw source bare r = ground arith

abbrev old_value : NgxComplexValue
old_value = record { source = str 0 0; cv = record { value = str 0 0; lengths = 0 } }

-- No module has registered yet.
abbrev new_conf : NgxHttpModule.Conf
new_conf = record { loc_handler = 0; phases = λ i. some []; init_upstream = 0; flags = 0 }

abbrev push_handler : Ptr → List Ptr → Option (List Ptr)
push_handler x xs = some (xs ++ x ∷ [])

-- A handler of a rewrite phase, one of the log phase, and another one of the rewrite phase.
abbrev registrations : List Registration
registrations =
    record { handler = 500; phase = 3 }
    ∷ record { handler = 501; phase = 10 }
    ∷ record { handler = 502; phase = 3 }
    ∷ []

abbrev no_handlers : ℕ → List Ptr
no_handlers i = []

register_all-Installed_example :
    (d : NgxHttpModule.Conf) × (register_all push_handler 10 registrations new_conf ≡ ok tt d)
    × Installed no_handlers registrations new_conf d
register_all-Installed_example =
    register_all-Installed push_handler 10 (λ x xs. refl) registrations no_handlers new_conf
      (λ i. refl) (refl, (refl, (refl, tt)))
