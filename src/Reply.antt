-- ===== src/Reply.antt =====
-- src/core/nos_scheduler.c, `nos_reply_ctx_*`: the reply contexts that remember where a request
-- came from. A context pointer is an index into the table of allocated contexts; a freed context
-- is `none`. `calloc` is taken to succeed.
pub mod Counts
use codex_nos.Base.{
  ℕ, zero, suc, Option, none, some, List, [], ◌∷◌, ◌++◌, length, get_elem?, set, add32, sub32, ◌==◌,
  if◌then◌else◌,
}

-- `struct nos_reply_ctx_s`; `ipc_conn` is the index of a connection.
pub record ReplyCtx : Type 0 where
  pub ref_cnt : ℕ
  pub ipc_conn : Option ℕ
  pub ipc_generation : ℕ
  pub corr_id : ℕ
  pub requester_component : ℕ

abbrev pub CtxTable : Type 0
CtxTable = List (Option ReplyCtx)

unfoldable pub ctx_create : CtxTable → Option ℕ → ℕ → ℕ → ℕ → ℕ × CtxTable
ctx_create t conn generation corr requester = (
  length t,
  t
      ++ some (record {
        ref_cnt = 1;
        ipc_conn = conn;
        ipc_generation = generation;
        corr_id = corr;
        requester_component = requester;
      })
        ∷ [],
)

-- The context behind a pointer, if it is allocated.
unfoldable pub ctx_at : CtxTable → ℕ → Option ReplyCtx
ctx_at t p = elim (get_elem? t p) [ none ↦ none | some c ↦ c ]

-- `nos_reply_ctx_retain`, null pointer included.
unfoldable pub ctx_retain : CtxTable → Option ℕ → CtxTable
unfolding ctx_at
ctx_retain t none = t
ctx_retain t (some p) = elim (ctx_at t p) [
  | none ↦ t
  | some c ↦ set t p (some (record c { ref_cnt = add32 c.ref_cnt 1 }))
]

-- `nos_reply_ctx_release`, null pointer included: the context is freed with its last reference.
unfoldable pub ctx_release : CtxTable → Option ℕ → CtxTable
unfolding ctx_at
ctx_release t none = t
ctx_release t (some p) = elim (ctx_at t p) [
  | none ↦ t
  | some c ↦
      set t p (if c.ref_cnt == 1 then none else some (record c { ref_cnt = sub32 c.ref_cnt 1 }))
]
