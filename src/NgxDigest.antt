-- ===== src/NgxDigest.antt =====
-- ngxpp/NgxDigest.hpp: a digest that is fed piece by piece, and that prints itself. `C` is the type
-- of nginx's context of the digest, such as `ngx_md5_t`; bytes are numbers.
pub mod Streaming
use ngx_cpp_dev.Base.{ℕ, ◌*◌, List}
use ngx_cpp_dev.Base.Run.{Cmd, ◌>>=◌, ◌>>◌, pure, modify, ok}
use ngx_cpp_dev.Nginx.{Ptr, NgxStr}

-- The description of a digest: nginx's functions on the context. The last of them also gives the
-- bytes that it writes.
pub record Meta (C : Type 0) : Type 0 where
  pub len : ℕ
  pub init_func : C → C
  pub update_func : C → List ℕ → C
  pub final_func : C → List ℕ × C

pub record Digest (C : Type 0) : Type 0 where
  pub m_ctx : C
  pub m_buf : List ℕ
  pub m_hex : List ℕ

-- `ngx_hex_dump` gives the text of some bytes; `hex_at` is the address of the member `m_hex`.
module _ {C : Type 0} (api : Meta C) (ngx_hex_dump : List ℕ → List ℕ) (hex_at : Ptr) where
  -- `init()`, and the constructor
  unfoldable pub init : Cmd (Digest C) (Unit {0})
  init = modify (λ d. record d { m_ctx = api.init_func d.m_ctx })

  unfoldable pub update : List ℕ → Cmd (Digest C) (Unit {0})
  update bytes = modify (λ d. record d { m_ctx = api.update_func d.m_ctx bytes })

  -- `final()`
  unfoldable pub finish : Cmd (Digest C) (Unit {0})
  finish d = let r = api.final_func d.m_ctx in ok tt (record d { m_buf = r.0; m_ctx = r.1 })

  -- `str()`: the string is the member `m_hex`, which the next call writes again.
  unfoldable pub str : Cmd (Digest C) NgxStr
  str = do
    modify (λ d. record d { m_hex = ngx_hex_dump d.m_buf })
    pure (record { len = api.len * 2; data_ptr = hex_at })

  -- `operator()(data, len)`
  unfoldable pub call : List ℕ → Cmd (Digest C) NgxStr
  call bytes = do init; update bytes; finish; str
