-- ===== src/NgxDigest/Streaming.antt =====
-- What a digest of ngxpp/NgxDigest.hpp answers, however its input comes.
use mathlib.Core.Path.{subst}
use ngx_cpp_dev.Base.{
  ℕ, ◌*◌, ◌≡◌, refl, List, [], ◌∷◌, ◌++◌, ◌∙◌, ap, sym, append-nil, append_assoc,
}
use ngx_cpp_dev.Base.Run.{Cmd, ok, for_each, ◌>>◌}
use ngx_cpp_dev.Nginx.{Ptr, NgxStr}
use ngx_cpp_dev.NgxDigest.{Meta, Digest, init, update, finish, str, call}

-- What is documented of a digest: a new context has absorbed nothing, an update adds its bytes at the
-- end, and the last function writes the hash of all that was absorbed. `Absorbed c bytes` says
-- that the context `c` has absorbed `bytes`.
pub record Computes {C : Type 0} (api : Meta C) (hash : List ℕ → List ℕ)
    (Absorbed : C → List ℕ → Type 0) : Type 0 where
  pub starts : (c : C) → Absorbed (api.init_func c) []
  pub absorbs :
      (c : C) (bytes more : List ℕ)
      → Absorbed c bytes
      → Absorbed (api.update_func c more) (bytes ++ more)
  pub writes : (c : C) (bytes : List ℕ) → Absorbed c bytes → (api.final_func c).0 ≡ hash bytes

abbrev pub joined : List (List ℕ) → List ℕ
joined [] = []
joined (piece ∷ pieces) = piece ++ joined pieces

module _ {C : Type 0} (api : Meta C) (hex_dump : List ℕ → List ℕ) (hex_at : Ptr) where
  -- A client that feeds the digest piece by piece.
  abbrev pub streamed : List (List ℕ) → Cmd (Digest C) NgxStr
  streamed pieces = do
    init api hex_dump hex_at
    for_each (update api hex_dump hex_at) pieces
    finish api hex_dump hex_at
    str api hex_dump hex_at

  -- The command returns the member `m_hex`, which holds `text`.
  abbrev pub Answers : List ℕ → Cmd (Digest C) NgxStr → Digest C → Type 0
  Answers text run s =
      (t : Digest C) × (run s ≡ ok (record { len = api.len * 2; data_ptr = hex_at }) t)
      × (t.m_hex ≡ text)

module _ {C : Type 0} (api : Meta C) (hash : List ℕ → List ℕ) (Absorbed : C → List ℕ → Type 0)
    (law : Computes api hash Absorbed) (hex_dump : List ℕ → List ℕ) (hex_at : Ptr) where
  feed : List (List ℕ) → Cmd (Digest C) (Unit {0})
  feed = for_each (update api hex_dump hex_at)

  feed-Absorbed :
      (pieces : List (List ℕ)) (bytes : List ℕ) (s : Digest C)
      → Absorbed s.m_ctx bytes
      → (t : Digest C) × (feed pieces s ≡ ok tt t) × Absorbed t.m_ctx (bytes ++ joined pieces)
  unfolding feed update
  feed-Absorbed [] bytes s h = (s, refl, subst (Absorbed s.m_ctx) (sym (append-nil bytes)) h)
  feed-Absorbed (piece ∷ pieces) bytes s h =
      let (t, e, h') =
        feed-Absorbed pieces (bytes ++ piece) (record s { m_ctx = api.update_func s.m_ctx piece })
          (law.absorbs s.m_ctx bytes piece h) in
      (t, e, subst (Absorbed t.m_ctx) (append_assoc bytes piece (joined pieces)) h')

  printed :
      (bytes : List ℕ) (s : Digest C)
      → Absorbed s.m_ctx bytes
      → Answers api hex_dump hex_at
          (hex_dump (hash bytes))
          (finish api hex_dump hex_at >> str api hex_dump hex_at)
          s
  unfolding finish str
  printed bytes s h = (_, refl, ap hex_dump (law.writes s.m_ctx bytes h))

  streamed-Answers :
      (pieces : List (List ℕ)) (s : Digest C)
      → Answers api hex_dump hex_at
          (hex_dump (hash (joined pieces)))
          (streamed api hex_dump hex_at pieces)
          s
  unfolding feed init
  streamed-Answers pieces s =
      let start : Digest C = record s { m_ctx = api.init_func s.m_ctx } in
      let (t, e, h) = feed-Absorbed pieces [] start (law.starts s.m_ctx) in
      let (u, e', text) = printed (joined pieces) t h in (u, rw e e', text)

  call-streamed :
      (bytes : List ℕ) (s : Digest C)
      → call api hex_dump hex_at bytes s ≡ streamed api hex_dump hex_at (bytes ∷ []) s
  unfolding call update
  call-streamed bytes s = refl

  -- A digest that is fed piece by piece and a digest that is called with all the bytes at once
  -- both answer the member `m_hex` with the printed hash of the bytes, whatever the two digests
  -- were used for before. nginx's functions compute the hash of what they are given.
  pub streamed-call :
      (pieces : List (List ℕ)) (s s' : Digest C)
      → Answers api hex_dump hex_at
          (hex_dump (hash (joined pieces)))
          (streamed api hex_dump hex_at pieces)
          s
        × Answers api hex_dump hex_at
            (hex_dump (hash (joined pieces)))
            (call api hex_dump hex_at (joined pieces))
            s'
  streamed-call pieces s s' =
      let (t, e, text) = streamed-Answers (joined pieces ∷ []) s' in
      (
        streamed-Answers pieces s,
        (
          t,
          call-streamed (joined pieces) s' ∙ e,
          text ∙ ap (λ x. hex_dump (hash x)) (append-nil (joined pieces)),
        ),
      )
