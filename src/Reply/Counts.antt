-- ===== src/Reply/Counts.antt =====
-- Reference counting of reply contexts.
use codex_nos.Base.{
  ℕ, ◌+◌, ◌-◌, ◌<◌, ◌≡◌, Option, none, some, get_elem?, set, set-set_self, set_same,
  get_elem?-set_self, lt_of_get_elem?, add32, u32_mod, arith, ◌==◌, if◌then◌else◌,
}
use codex_nos.Reply.{ReplyCtx, CtxTable, ctx_at, ctx_retain, ctx_release}

module _ (t : CtxTable) (p : ℕ) (c : ReplyCtx) (h : get_elem? t p ≡ some (some c)) where
  ctx_at_set : (v : Option ReplyCtx) → get_elem? (set t p v) p ≡ some v
  ctx_at_set v = get_elem?-set_self t p v (lt_of_get_elem? t p h)

  -- For an allocated context whose count does not overflow, retaining it and releasing it again
  -- leaves the table as it was, and a release frees it if it was the last reference and lowers the
  -- count by one otherwise.
  pub release-retain :
      0 < c.ref_cnt
      → c.ref_cnt + 1 < u32_mod
      → (ctx_release (ctx_retain t (some p)) (some p) ≡ t)
        × (ctx_at (ctx_release t (some p)) p
            ≡ (if c.ref_cnt == 1 then none else some (record c { ref_cnt = c.ref_cnt - 1 })))
  unfolding ctx_retain ctx_release ctx_at
  release-retain pos small =
      let c' = record c { ref_cnt = add32 c.ref_cnt 1 } in
      (
        ground (
          arith,
          ctx_at_set (some c'),
          set-set_self t p (some c') (some c),
          set_same t p (some c) h,
        ),
        ground (arith, ctx_at_set none, ctx_at_set (some (record c { ref_cnt = c.ref_cnt - 1 }))),
      )
