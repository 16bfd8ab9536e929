-- ===== src/Pool/Objects.antt =====
-- The allocations of ngxpp/NgxPool.hpp that give a pointer to an object: `S` is whatever state the
-- caller has. Each takes as an argument what nginx's function returns, null without memory.
use ngx_cpp_dev.Base.{◌==◌, ◌≡◌, Bool, true, false, not, Option, some, arith, if◌then◌else◌}
use ngx_cpp_dev.Base.Int.{ℤ, negsuc}
use ngx_cpp_dev.Base.Run.{Cmd, ok, raised, ◌>>=◌, ◌>>◌, pure, modify}
use ngx_cpp_dev.Nginx.{Ptr, null, is_null, ngx_error}
use ngx_cpp_dev.Exception.{raise, require, require_ptr, exception_of}

module _ {S : Type 0} where
  -- `palloc<T, no_exception>()`
  unfoldable pub palloc : (no_exception : Bool) → (p : Ptr) → Cmd S Ptr
  unfolding raise
  palloc no_exception p =
      if not (is_null p) then pure p else if no_exception then pure null else raise ngx_error

  -- `alloc<T>()` and `alloc_noexcept<T>()`
  unfoldable pub alloc : (p : Ptr) → Cmd S Ptr
  unfolding palloc
  alloc p = palloc false p

  unfoldable pub alloc_noexcept : (p : Ptr) → Cmd S Ptr
  unfolding palloc
  alloc_noexcept p = palloc true p

  -- `nalloc<T>(n)`, `construct<T>(args)`, `array<T>(n)`, `list<T>(n)`, `chain(bufs)` and
  -- `thread_task<T>()`
  unfoldable pub nalloc : (p : Ptr) → Cmd S Ptr
  unfolding require_ptr
  nalloc p = do require_ptr p ngx_error; pure p

  unfoldable pub construct : (p : Ptr) → Cmd S Ptr
  unfolding require_ptr
  construct p = do require_ptr p ngx_error; pure p

  unfoldable pub array : (p : Ptr) → Cmd S Ptr
  unfolding require_ptr
  array p = do require_ptr p ngx_error; pure p

  unfoldable pub list : (p : Ptr) → Cmd S Ptr
  unfolding require_ptr
  list p = do require_ptr p ngx_error; pure p

  unfoldable pub chain_of_bufs : (p : Ptr) → Cmd S Ptr
  unfolding require_ptr
  chain_of_bufs p = do require_ptr p ngx_error; pure p

  unfoldable pub thread_task : (p : Ptr) → Cmd S Ptr
  unfolding require_ptr
  thread_task p = do require_ptr p ngx_error; pure p

  -- `file()`
  unfoldable pub file : (p : Ptr) → Cmd S Ptr
  unfolding alloc
  file p = alloc p

-- `ngx_pool_cleanup_t`: what is called, and with what, when the pool goes.
pub record Cleanup : Type 0 where
  pub handler : Ptr
  pub data_ptr : Ptr

-- `ngx_pool_cleanup_file_t` and `ngx_temp_file_t`, with the fields that the source sets.
pub record CleanupFile : Type 0 where
  pub fd : ℤ
  pub name : Ptr
  pub log : Ptr

pub record TempFile : Type 0 where
  pub fd : ℤ
  pub pool : Ptr

-- The objects by their addresses.
pub record Objects : Type 0 where
  pub cleanups : Ptr → Option Cleanup
  pub cleanup_files : Ptr → Option CleanupFile
  pub temp_files : Ptr → Option TempFile

abbrev pub put : {A : Type 0} → (Ptr → Option A) → Ptr → A → Ptr → Option A
put f p a q = if q == p then some a else f q

-- `cleanup(func, data, size)`: `p` is what `ngx_pool_cleanup_add` returns, with `own` as its data.
unfoldable pub cleanup : (p own : Ptr) → (func data_ptr : Ptr) → Cmd Objects Ptr
unfolding require_ptr
cleanup p own func data_ptr = do
  require_ptr p ngx_error
  modify (λ s. record s {
    cleanups =
        put s.cleanups p
          (record { handler = func; data_ptr = if is_null data_ptr then own else data_ptr });
  })
  pure p

-- `cleanup(data)`, which destroys an object: `destory` is where that function is.
unfoldable pub cleanup_object :
    (p own : Ptr) → (destory : Ptr) → (data_ptr : Ptr) → Cmd Objects (Unit {0})
unfolding cleanup
cleanup_object p own destory data_ptr = do cleanup p own destory data_ptr; pure tt

-- `cleanup(f)`, which closes a file: `q` is what the pool gives, and `f` the file's fields.
unfoldable pub cleanup_file :
    (q p own : Ptr) → (ngx_pool_cleanup_file : Ptr) → (f : CleanupFile) → Cmd Objects (Unit {0})
unfolding alloc cleanup
cleanup_file q p own ngx_pool_cleanup_file f = do
  q' ← alloc q
  modify (λ s. record s { cleanup_files = put s.cleanup_files q' f })
  cleanup p own ngx_pool_cleanup_file q'
  pure tt

-- `tempfile()`, of the pool at `own_pool`. An invalid file is -1.
unfoldable pub tempfile : (p own_pool : Ptr) → Cmd Objects Ptr
unfolding alloc
tempfile p own_pool = do
  p' ← alloc p
  modify (λ s. record s {
    temp_files = put s.temp_files p' (record { fd = negsuc 0; pool = own_pool });
  })
  pure p'

-- A command that gives what nginx gives, or throws and changes nothing.
abbrev pub Allocates : {S : Type 0} → (Ptr → Cmd S Ptr) → Type 0
Allocates {S} c =
    (p : Ptr) (s : S)
    → if is_null p then (c p s ≡ raised (exception_of ngx_error) s) else (c p s ≡ ok p s)

-- Every allocation but the one without exceptions gives what nginx gives where that is not null, and
-- else throws an error; none of them returns null.
pub allocations-Allocate :
    {S : Type 0}
    → Allocates {S = S} alloc
      × Allocates {S = S} nalloc
      × Allocates {S = S} construct
      × Allocates {S = S} array
      × Allocates {S = S} list
      × Allocates {S = S} chain_of_bufs
      × Allocates {S = S} thread_task
      × Allocates {S = S} file
unfolding palloc alloc nalloc construct array list chain_of_bufs thread_task file require_ptr
    require raise
allocations-Allocate = (
  λ p s. ground arith,
  λ p s. ground arith,
  λ p s. ground arith,
  λ p s. ground arith,
  λ p s. ground arith,
  λ p s. ground arith,
  λ p s. ground arith,
  λ p s. ground arith,
)
