-- ===== src/NgxThread.antt =====
-- ngxpp/NgxThread.hpp: a task for one of nginx's thread pools, and the pools.
use ngx_cpp_dev.Base.{◌≡◌, refl, false, List, ◌∷◌, [], if◌then◌else◌}
use ngx_cpp_dev.Base.Int.{ℤ}
use ngx_cpp_dev.Base.Run.{Cmd, ok, for_each, ◌>>=◌, ◌>>◌, pure, modify}
use ngx_cpp_dev.Nginx.{Ptr, NgxStr, is_null, ngx_error, ngx_ok}
use ngx_cpp_dev.Pool.Objects.{thread_task}
use ngx_cpp_dev.Exception.{require_rc, require_ptr}

-- The fields of `ngx_thread_task_t` that the wrapper reads.
record Task : Type 0 where
  ctx : Ptr
  handler : Ptr
  event : Ptr

-- `handler(f)`: only the first handler counts.
unfoldable handler : (f : Ptr) → Cmd Task (Unit {0})
handler f = modify (λ t. if is_null t.handler then record t { handler = f } else t)

module _ {S : Type 0} where
  -- `NgxThreadTask::create(pool)`; `p` is what nginx allocates.
  unfoldable create : (p : Ptr) → Cmd S Ptr
  unfolding thread_task
  create p = thread_task p

  -- `NgxThreadPool::post(task)`
  unfoldable post : (ngx_thread_task_post : Ptr → Cmd S ℤ) → (task : Ptr) → Cmd S (Unit {0})
  unfolding require_rc
  post ngx_thread_task_post task = do rc ← ngx_thread_task_post task; require_rc rc ngx_ok

  -- `NgxThreadPool::acquire(name)`
  unfoldable acquire : (ngx_thread_pool_get : NgxStr → Ptr) → NgxStr → Cmd S Ptr
  unfolding require_ptr
  acquire ngx_thread_pool_get name = do
    require_ptr (ngx_thread_pool_get name) ngx_error
    pure (ngx_thread_pool_get name)

-- A task with a handler keeps it, whatever handlers it is given later.
handlers-kept :
    (fs : List Ptr) (t : Task) → is_null t.handler ≡ false → for_each handler fs t ≡ ok tt t
unfolding handler
handlers-kept [] t set = refl
handlers-kept (f ∷ fs) t set = rw set (handlers-kept fs t set)
