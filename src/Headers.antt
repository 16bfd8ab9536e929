-- ===== src/Headers.antt =====
-- ngxpp/NgxHeaders.hpp: the header list of a request or a response. `iequals` is
-- `boost::iequals` of a header's key and the key asked for.
pub mod Lookup
pub mod Remove
use ngx_cpp_dev.Base.{ℕ, Bool, not, Option, if◌then◌else◌}
use ngx_cpp_dev.Base.Run.{Cmd, ◌>>=◌, pure, get, modify}
use ngx_cpp_dev.Nginx.{NgxStr, TableElt, is_null, ngx_null_string}
use ngx_cpp_dev.NgxList.{NgxList, Iter, at_end, equal, dereference, modify_at, push}
use ngx_cpp_dev.NgxList

module _ (iequals : NgxStr → NgxStr → Bool) where
  -- `find(key)`
  unfoldable pub find : ℕ → NgxStr → Cmd (NgxList TableElt) (Iter TableElt)
  find k key = do l ← get; NgxList.find k (λ (kv : TableElt). iequals kv.key key) l

  -- `has(key)`
  unfoldable pub has : ℕ → NgxStr → Cmd (NgxList TableElt) Bool
  has k key = do p ← find k key; pure (not (equal p at_end))

  -- `operator[](key)`
  unfoldable pub value_of : ℕ → NgxStr → Cmd (NgxList TableElt) NgxStr
  value_of k key = do
    p ← find k key
    if equal p at_end then pure ngx_null_string else do kv ← dereference p; pure kv.value

  -- `remove(key)`
  unfoldable pub remove : ℕ → NgxStr → Cmd (NgxList TableElt) (Unit {0})
  remove k key = do
    p ← find k key
    if equal p at_end then pure tt else modify (modify_at p (λ kv. record kv { hash = 0 }))

-- What `add` puts into the slot that `prepare()` gives: a header whose hash is not 0.
abbrev pub hashed : TableElt → TableElt
hashed kv = if is_null kv.hash then record kv { hash = 1 } else kv

-- `add(kv)`
unfoldable pub add :
    (ngx_list_push : TableElt → NgxList TableElt → Option (NgxList TableElt))
    → TableElt
    → Cmd (NgxList TableElt) (Unit {0})
add ngx_list_push kv = push ngx_list_push (hashed kv)
