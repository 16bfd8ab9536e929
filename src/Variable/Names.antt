-- ===== src/Variable/Names.antt =====
-- The rest of ngxpp/NgxVariable.hpp: a variable is looked up by its name, and a module adds its
-- variables when the configuration is read.
pub mod Added
use ngx_cpp_dev.Base.{ℕ, ◌==◌, Bool, Option, none, some, List, [], ◌∷◌, if◌then◌else◌}
use ngx_cpp_dev.Base.Int.{ℤ}
use ngx_cpp_dev.Base.Run.{Cmd, fault, ◌>>=◌, ◌>>◌, pure, modify}
use ngx_cpp_dev.Nginx.{Ptr, is_null, NgxStr, ngx_null_string, ngx_ok, ngx_error}
use ngx_cpp_dev.Exception.{fail, require_ptr}
use ngx_cpp_dev.Response.{dup}
use ngx_cpp_dev.Variable.{VariableValue, str}

-- `NgxVariable`: its name, in the pool, and the key of its name.
pub record NgxVariable : Type 0 where
  pub name : NgxStr
  pub key : ℕ

-- `NgxVariable(r, name)` and `NgxVarManager::operator[]`, for a name of `len` characters; `copy` is
-- where the pool puts it.
unfoldable pub new_variable :
    {S : Type 0} → (ngx_hash_strlow : NgxStr → ℕ) → (copy : Ptr) → (len : ℕ) → Cmd S NgxVariable
unfolding dup
new_variable ngx_hash_strlow copy len = do
  name ← dup copy len
  pure (record { name = name; key = ngx_hash_strlow name })

-- `get()`; a null value has the empty string.
unfoldable pub get_value :
    {S : Type 0}
    → (ngx_get_variable : NgxStr → ℕ → Cmd S (Option VariableValue)) → NgxVariable
    → Cmd S NgxStr
unfolding str
get_value ngx_get_variable x = do
  v ← ngx_get_variable x.name x.key
  elim v [ none ↦ pure ngx_null_string | some v ↦ pure (str v) ]

-- An entry of a module's table of variables.
pub record Entry : Type 0 where
  pub name : NgxStr
  pub get_handler : Ptr
  pub data_word : ℕ
  pub flags : ℕ

-- What a variable that was added calls for its value, and with what.
pub record AddedVariable : Type 0 where
  pub get_handler : Ptr
  pub data_word : ℕ

module _ (ngx_add_variable : NgxStr → ℕ → Cmd (Ptr → Option AddedVariable) Ptr) where
  abbrev pub set_added :
      Ptr → AddedVariable → (Ptr → Option AddedVariable) → Ptr → Option AddedVariable
  set_added p v vars q = if q == p then some v else vars q

  -- A round of `init`'s loop.
  unfoldable pub add_entry : Entry → Cmd (Ptr → Option AddedVariable) (Unit {0})
  unfolding fail
  add_entry v = do
    p ← ngx_add_variable v.name v.flags
    fail (is_null p) ngx_error
    modify (set_added p (record { get_handler = v.get_handler; data_word = v.data_word }))

  -- The loop, which an empty name ends; without one it runs out of the table.
  unfoldable pub add_entries : List Entry → Cmd (Ptr → Option AddedVariable) (Unit {0})
  unfolding add_entry
  add_entries [] = λ _. fault
  add_entries (v ∷ vs) =
      let rest = add_entries vs in if is_null v.name.len then pure tt else do add_entry v; rest

  -- `NgxVariables::init(cf)`; `get_vars` is null where a module has no variables.
  unfoldable pub init : (get_vars : Option (List Entry)) → Cmd (Ptr → Option AddedVariable) ℤ
  unfolding add_entries
  init none = pure ngx_ok
  init (some vs) = do add_entries vs; pure ngx_ok

  -- `NgxVariables::create(cf, name, flags)`
  unfoldable pub create : NgxStr → ℕ → Cmd (Ptr → Option AddedVariable) Ptr
  unfolding require_ptr
  create name flags = do p ← ngx_add_variable name flags; require_ptr p ngx_error; pure p
