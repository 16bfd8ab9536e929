-- ===== src/DataHook/Capture.antt =====
-- What legacy/datahook/NdgDataHookHandler.hpp keeps of a subrequest's response.
use ngx_cpp_dev.Base.Run.{◌>>◌, ◌>>=◌, pure, Cmd, ok, for_each}
use ngx_cpp_dev.Base.{
  refl, none, Option, All, ◌≡◌, Bool, true, false, inl, inr, some, List, [], ◌∷◌, arith, Bool-cases,
}
use ngx_cpp_dev.Base.Int.{ℤ, eqb_ℤ, eqb_ℤ_iff}
use ngx_cpp_dev.Nginx.{Ptr, is_null, ngx_ok}
use ngx_cpp_dev.Exception.{require_rc, require, raise}
use ngx_cpp_dev.Memory.{Memory}
use ngx_cpp_dev.DataHook.{
  new_ctx, keep_headers, header_filter, NdgDataHookCtx, state, Request, Copied, keep_body,
  body_filter,
}

-- The status of a subrequest is set once: what comes later does not change it.
pub state-once : (rc rc' : ℤ) (c : NdgDataHookCtx) → state rc' (state rc c) ≡ state rc c
unfolding state
state-once rc rc' c = ground arith

-- The response of `s` is hooked for the parent, whose context is `pr`.
pub record IsHooked (s : Request) (pr : NdgDataHookCtx) : Type 0 where
  pub own : NdgDataHookCtx
  pub own_eq : s.ctx ≡ some own
  pub do_hook : own.do_hook ≡ true
  pub child : s.parent ≡ true
  pub parent_eq : s.parent_ctx ≡ some pr

abbrev pub own_ctx : Option NdgDataHookCtx → NdgDataHookCtx
own_ctx none = new_ctx
own_ctx (some c) = c

abbrev pub hooked : (own pr : NdgDataHookCtx) → Request → Request
hooked own pr s = record s {
  ctx = some (record own { do_hook = true });
  parent_ctx = some (record pr { headers = s.headers_out });
  filter_need_in_memory = true;
  header_sent = true;
}

keep_headers-hooked :
    (o : Option NdgDataHookCtx) (s : Request) (pr : NdgDataHookCtx)
    → s.ctx ≡ o
    → keep_headers true pr s ≡ ok ngx_ok (hooked (own_ctx o) pr s)
unfolding keep_headers require
keep_headers-hooked none s pr e = rw e refl
keep_headers-hooked (some c) s pr e = rw e refl

header_filter-hooked :
    (next : Cmd Request ℤ) (s : Request) (pr : NdgDataHookCtx)
    → s.parent ≡ true
    → s.parent_ctx ≡ some pr
    → pr.hook ≡ true
    → header_filter next true s ≡ ok ngx_ok (hooked (own_ctx s.ctx) pr s)
unfolding header_filter
header_filter-hooked next s pr child asked hook =
    ground (arith, keep_headers-hooked s.ctx s pr refl)

module _ (ngx_chain_add_copy : (chain input : Ptr) → Memory → Copied × Memory) where
  -- What the parent's chain and the memory are when copies of some chains were added in turn.
  abbrev pub collected : List Ptr → Ptr → Memory → Ptr × Memory
  collected [] chain m = (chain, m)
  collected (x ∷ xs) chain m =
      collected xs (ngx_chain_add_copy chain x m).0.chain (ngx_chain_add_copy chain x m).1

  abbrev pub after_copy : Ptr → NdgDataHookCtx → Request → Request
  after_copy x pr s = record s {
    memory = (ngx_chain_add_copy pr.body x s.memory).1;
    parent_ctx = some (record pr { body = (ngx_chain_add_copy pr.body x s.memory).0.chain });
  }

  body_filter-copy :
      (next : Ptr → Cmd Request ℤ) (given : Bool) (x : Ptr) (s : Request) (pr : NdgDataHookCtx)
      → IsHooked s pr
      → is_null x ≡ false
      → body_filter ngx_chain_add_copy next given x s
        ≡ ok (ngx_chain_add_copy pr.body x s.memory).0.rc (after_copy x pr s)
  unfolding body_filter keep_body require_rc require raise
  body_filter-copy next given x s pr h here =
      let c = (ngx_chain_add_copy pr.body x s.memory).0 in
      let succeeds = (eqb_ℤ_iff c.rc ngx_ok).0 in
      elim (Bool-cases (eqb_ℤ c.rc ngx_ok)) [
        | inl good ↦ ground (arith, h.own_eq, h.do_hook, h.parent_eq, h.child, succeeds good)
        | inr bad ↦ ground (arith, h.own_eq, h.do_hook, h.parent_eq, h.child)
      ]

  -- The copies that the parent's chain and the memory hold after a list of passes, and what each pass
  -- returned.
  abbrev pub passes :
      (next : Ptr → Cmd Request ℤ) → (given : Bool) → List Ptr → Cmd Request (Unit {0})
  passes next given = for_each (λ x. do body_filter ngx_chain_add_copy next given x; pure tt)

  passes-collected :
      (next : Ptr → Cmd Request ℤ) (given : Bool) (xs : List Ptr) (s : Request)
      (pr : NdgDataHookCtx)
      → IsHooked s pr
      → All (λ x. is_null x ≡ false) xs
      → (t : Request) × (passes next given xs s ≡ ok tt t)
        × (t.memory ≡ (collected xs pr.body s.memory).1)
        × (t.parent_ctx ≡ some (record pr { body = (collected xs pr.body s.memory).0 }))
        × (t.header_sent ≡ s.header_sent)
  passes-collected next given [] s pr h all = (s, refl, refl, h.parent_eq, refl)
  passes-collected next given (x ∷ xs) s pr h (here, all) =
      let pr' = record pr { body = (ngx_chain_add_copy pr.body x s.memory).0.chain } in
      let h' : IsHooked (after_copy x pr s) pr' = record {
        own = h.own;
        own_eq = h.own_eq;
        do_hook = h.do_hook;
        child = h.child;
        parent_eq = refl;
      } in
      let (t, e, m, p, sent) = passes-collected next given xs (after_copy x pr s) pr' h' all in
      (t, rw (body_filter-copy next given x s pr h here) e, m, p, sent)

  -- Where the parent hooks the response of a subrequest, no other filter sees it: its headers and
  -- copies of all the chains of its body, in order, are kept in the parent's context, and nothing else
  -- of that context changes. There is memory for the subrequest's own context, and no pass is of a
  -- null chain.
  pub filters-collected :
      (next : Cmd Request ℤ) (next_body : Ptr → Cmd Request ℤ) (given : Bool) (xs : List Ptr)
      (s : Request) (pr : NdgDataHookCtx)
      → s.parent ≡ true
      → s.parent_ctx ≡ some pr
      → pr.hook ≡ true
      → All (λ x. is_null x ≡ false) xs
      → (t : Request) × ((header_filter next true >>= λ rc. passes next_body given xs) s ≡ ok tt t)
        × (t.memory ≡ (collected xs pr.body s.memory).1)
        × (t.parent_ctx
            ≡ some
                (record pr { headers = s.headers_out; body = (collected xs pr.body s.memory).0 }))
        × (t.header_sent ≡ true)
  filters-collected next next_body given xs s pr child asked hook all =
      let own = own_ctx s.ctx in
      let kept = record pr { headers = s.headers_out } in
      let h : IsHooked (hooked own pr s) kept = record {
        own = record own { do_hook = true };
        own_eq = refl;
        do_hook = refl;
        child = child;
        parent_eq = refl;
      } in
      let (t, e, m, p, sent) = passes-collected next_body given xs (hooked own pr s) kept h all in
      (t, rw (header_filter-hooked next s pr child asked hook) e, m, p, sent)
