-- ===== src/Directives/Setters/Installs.antt =====
-- When a directive makes its module the handler of a location, and what it answers.
use ngx_cpp_dev.Base.Int.{eqb_ℤ}
use ngx_cpp_dev.Base.{◌==◌, ◌≤◌, ◌⊎◌, ◌≡◌, refl, inl, inr, some, Bool-cases, if◌then◌else◌, arith}
use ngx_cpp_dev.Base.Run.{Run, ok, raised}
use ngx_cpp_dev.NgxArray.Access.{at-elt}
use ngx_cpp_dev.Nginx.{ngx_ok, ngx_error, Ptr, null, is_null, NgxStr}
use ngx_cpp_dev.NgxHttpModule.{Conf, content_handler}
use ngx_cpp_dev.NgxScript.{Compiled, NgxComplexValue, value_init}
use ngx_cpp_dev.NgxArray.{Array, elt, size}
use ngx_cpp_dev.Exception.{exception_of, raise, require, require_rc}
use ngx_cpp_dev.Directives.Setters.{
  config_args, Setting, set_echo, set_script_echo, set_upstream_pass,
}

-- nginx's configuration, with the handler of the location.
abbrev pub with_handler : Ptr → Conf → Conf
with_handler handler conf = record conf { loc_handler = handler }

-- The slot function of nginx fills the module's configuration, and what it answers is answered; only
-- null, which is no error, makes the module the handler.
abbrev pub EchoSet :
    {C : Type 0} → Ptr → (slot : C → Ptr × C) → Setting C → Run (Setting C) Ptr → Type 0
EchoSet handler slot s run =
    (t : Setting _) × (run ≡ ok (slot s.own).0 t)
    × (t.own ≡ (slot s.own).1)
    × (t.conf ≡ (if (slot s.own).0 == 0 then with_handler handler s.conf else s.conf))

-- Without an argument the directive throws. Else what nginx gives for its address is stored; a null
-- upstream is answered with the error, which is the greatest address, and changes nothing else.
abbrev pub UpstreamSet :
    {C : Type 0}
    → Ptr
    → (upstream_add : NgxStr → Ptr) → (put : Ptr → C → C) → Array NgxStr
    → Setting C
    → Run (Setting C) Ptr
    → Type 0
UpstreamSet handler upstream_add put words s run =
    ((size words ≤ 1) × (run ≡ raised (exception_of ngx_error) s))
    ⊎ ((url : NgxStr) × (elt words 1 ≡ some url)
        × (t : Setting _) × (t.own ≡ put (upstream_add url) s.own)
        × (if upstream_add url == 0
            then (run ≡ ok 18446744073709551615 t) × (t.conf ≡ s.conf)
            else (run ≡ ok null t) × (t.conf ≡ with_handler handler s.conf)))

-- Without an argument, or with one that nginx does not compile, the directive throws, and nginx's
-- configuration is as it was.
abbrev pub ScriptSet :
    Ptr
    → (compile : NgxStr → Compiled) → Array NgxStr
    → Setting NgxComplexValue
    → Run (Setting NgxComplexValue) Ptr
    → Type 0
ScriptSet handler compile words s run =
    ((size words ≤ 1) × (run ≡ raised (exception_of ngx_error) s))
    ⊎ ((source : NgxStr) × (elt words 1 ≡ some source)
        × (t : Setting NgxComplexValue) × (t.own
            ≡ record { source = source; cv = (compile source).cv })
        × (if eqb_ℤ (compile source).rc ngx_ok
            then (run ≡ ok null t) × (t.conf ≡ with_handler handler s.conf)
            else (run ≡ raised (exception_of (compile source).rc) t) × (t.conf ≡ s.conf)))

module _ {C : Type 0} (handler : Ptr) where
  set_echo-EchoSet :
      (slot : C → Ptr × C) (s : Setting C) → EchoSet handler slot s (set_echo handler slot s)
  unfolding set_echo content_handler
  set_echo-EchoSet slot s = elim (Bool-cases (is_null (slot s.own).0)) [
    | inl fine ↦ (
      record s { conf = with_handler handler s.conf; own = (slot s.own).1 },
      ground arith,
      refl,
      rw fine refl,
    )
    | inr wrong ↦ (record s { own = (slot s.own).1 }, rw wrong refl, refl, rw wrong refl)
  ]

  set_upstream_pass-UpstreamSet :
      (upstream_add : NgxStr → Ptr) (put : Ptr → C → C) (words : Array NgxStr) (s : Setting C)
      → UpstreamSet handler upstream_add put words s
          (set_upstream_pass handler upstream_add put words s)
  unfolding set_upstream_pass content_handler config_args
  set_upstream_pass-UpstreamSet upstream_add put words s = elim (at-elt words 1 s) [
    | inl (_, url, there, e) ↦
        let own = put (upstream_add url) s.own in
        elim (Bool-cases (is_null (upstream_add url))) [
          | inl missing ↦
              inr
                (url, there, record s { own = own }, refl, rw missing (rw (e, missing) refl, refl))
          | inr added ↦ inr (
            url,
            there,
            record s { conf = with_handler handler s.conf; own = own },
            refl,
            rw added (rw (e, added) refl, refl),
          )
        ]
    | inr (short, e) ↦ inl (short, rw e refl)
  ]

set_script_echo-ScriptSet :
    (handler : Ptr) (compile : NgxStr → Compiled) (words : Array NgxStr)
    (s : Setting NgxComplexValue)
    → ScriptSet handler compile words s (set_script_echo handler compile words s)
unfolding set_script_echo content_handler value_init require_rc require raise
set_script_echo-ScriptSet handler compile words s = elim (at-elt words 1 s) [
  | inl (_, source, there, e) ↦
      let own : NgxComplexValue = record { source = source; cv = (compile source).cv } in
      elim (Bool-cases (eqb_ℤ (compile source).rc ngx_ok)) [
        | inl good ↦ inr (
          source,
          there,
          record s { conf = with_handler handler s.conf; own = own },
          refl,
          rw good (rw (e, good) refl, refl),
        )
        | inr bad ↦
            inr (source, there, record s { own = own }, refl, rw bad (rw (e, bad) refl, refl))
      ]
  | inr (short, e) ↦ inl (short, rw e refl)
]

-- The directives of http/echo, legacy/upstream and legacy/echo make their module the handler of the
-- location exactly if nginx accepts their argument, and say so: `set_echo` answers what nginx's slot
-- function answers, `set_upstream_pass` the error for an address without an upstream, and the legacy
-- `set_echo` throws nginx's code for a string that does not compile. A missing argument throws, and
-- whatever refuses the directive leaves nginx's configuration as it was.
pub setters-Installs :
    {C : Type 0} (handler : Ptr) (slot : C → Ptr × C) (upstream_add : NgxStr → Ptr)
    (put : Ptr → C → C) (compile : NgxStr → Compiled) (words : Array NgxStr) (s : Setting C)
    (s' : Setting NgxComplexValue)
    → EchoSet handler slot s (set_echo handler slot s)
      × UpstreamSet handler upstream_add put words s
          (set_upstream_pass handler upstream_add put words s)
      × ScriptSet handler compile words s' (set_script_echo handler compile words s')
setters-Installs handler slot upstream_add put compile words s s' = (
  set_echo-EchoSet handler slot s,
  set_upstream_pass-UpstreamSet handler upstream_add put words s,
  set_script_echo-ScriptSet handler compile words s',
)
