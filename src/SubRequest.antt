-- ===== src/SubRequest.antt =====
-- ngxpp/NgxSubRequest.hpp: the creation of a subrequest, and the functions that run when it ends. The
-- state is what these read and write of the parent, of the subrequest, and of the arrays of variables.
pub mod Own
use ngx_cpp_dev.Base.{ℕ, ◌==◌, ltb, Bool, true, false, ◌&&◌, if◌then◌else◌}
use ngx_cpp_dev.Base.Int.{ℤ}
use ngx_cpp_dev.Base.Run.{
  NgxException, Run, Cmd, ok, raised, fault, out_of_fuel, ◌>>=◌, ◌>>◌, catch, pure, modify, get,
}
use ngx_cpp_dev.Nginx.{Ptr, ngx_ok, ngx_error}
use ngx_cpp_dev.Exception.{require_rc, require_ptr}
use ngx_cpp_dev.Variable.{VariableValue}

-- The functions that can be the parent's `write_event_handler`: nginx's, and the helper's.
pub data Handler : Type 0 where
  ngx_http_core_run_phases : Handler
  parent_post_handler : Handler
  other_handler : Handler

-- A request: where the first part of its header list is, where the list's last part is, and where
-- its variables are.
pub record Request : Type 0 where
  pub headers_part : Ptr
  pub headers_last : Ptr
  pub variables : Ptr
  pub write_event_handler : Handler

-- `ngx_http_post_subrequest_t`, whose `handler` is always the helper's `sub_post`.
pub record PostSubrequest : Type 0 where
  pub data_ptr : Ptr

pub record State : Type 0 where
  pub parent : Request
  pub sub : Request
  pub arrays : Ptr → ℕ → VariableValue

-- `sub_post(r, data, rc)` for the content phase and for the other phases; `own` is the module's.
unfoldable pub sub_post : (content_phase : Bool) → (own : Cmd State ℤ) → Cmd State ℤ
sub_post content_phase own =
    let next = if content_phase then parent_post_handler else ngx_http_core_run_phases in
    catch
      (do modify (λ s. record s { parent = record s.parent { write_event_handler = next } }); own)
      (λ (e : NgxException). pure e.code)

-- `parent_post(r)`: an exception ends it.
unfoldable pub parent_post :
    {S : Type 0}
    → (ngx_http_finalize_request : ℤ → Cmd S (Unit {0})) → (own : Cmd S ℤ) → Cmd S (Unit {0})
parent_post ngx_http_finalize_request own =
    catch (do rc ← own; ngx_http_finalize_request rc) (λ (e : NgxException). pure tt)

-- `copy_variables(sr)`: `p` is the memory of the copies, and `nelts` how many variables there are.
unfoldable pub copy_variables : (nelts : ℕ) → (p : Ptr) → Cmd State (Unit {0})
unfolding require_ptr
copy_variables nelts p = do
  require_ptr p ngx_error
  modify (λ s. record s { sub = record s.sub { variables = p } })
  modify (λ s. record s {
    arrays = λ q i.
        if (q == s.sub.variables) && ltb i nelts
        then s.arrays s.parent.variables i
        else s.arrays q i;
  })

-- The list of headers that was copied with its parent's `last` is mended.
abbrev pub mend_headers : State → State
mend_headers s =
    if s.parent.headers_last == s.parent.headers_part
    then record s { sub = record s.sub { headers_last = s.sub.headers_part } }
    else s

-- `create(uri, args, psr_data, flags)`: `psr` is what the pool gives, and nginx's function has the
-- locations, the arguments and the flags. The subrequest is `sub` of the state that is left.
unfoldable pub create :
    (ngx_http_subrequest : PostSubrequest → Cmd State ℤ)
    → (copy_vars : Bool) → (nelts : ℕ) → (psr data_ptr copies : Ptr) → Cmd State (Unit {0})
unfolding copy_variables require_rc require_ptr
create ngx_http_subrequest copy_vars nelts psr data_ptr copies = do
  require_ptr psr ngx_error
  rc ← ngx_http_subrequest (record { data_ptr = data_ptr })
  require_rc rc ngx_ok
  modify mend_headers
  if copy_vars then copy_variables nelts copies else pure tt
