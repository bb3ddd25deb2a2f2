-- ===== src/Kv/Table/Bindings.antt =====
-- src/infra/db/nos_kv.c: what a get returns, in terms of the links of the table.
use codex_nos.Base.{
  ℕ, ◌<◌, ◌≡◌, ◌≢◌, Option, none, some, List, take, get_or, ltb, if◌then◌else◌, Status, ok, err,
}
use codex_nos.Kv.Table.{Entry, Table, entry_at, kv_invalid_idx, get}
use codex_nos.Kv.Table.Valid.{Valid, view, row_of}

-- The links from the first index lead to the second.
pub data Linked (pool : List Entry) : ℕ → ℕ → Type 0 where
  here : {i : ℕ} → i < kv_invalid_idx → Linked pool i i
  there :
      {i j : ℕ} → i < kv_invalid_idx → Linked pool (entry_at pool i).next_idx j → Linked pool i j

-- The entry that some bucket's links lead to.
abbrev pub Stored : Table → ℕ → Type 0
Stored t j = (b : ℕ) × (b < t.bucket_count) × Linked t.pool (get_or t.buckets b 0) j

module _ (t : Table) (key : List ℕ) (n : ℕ) where
  -- The value of an entry, as far as the buffer takes it.
  abbrev pub value_of : Entry → Status × Option (List ℕ × ℕ)
  value_of e = (ok, some (take (if ltb n e.val_len then n else e.val_len) e.val, e.val_len))

  -- A get of a key that one stored entry has, and of one that none has.
  pub data GetSpec : Type 0 where
    bound :
        (j : ℕ)
        → Stored t j
        → (entry_at t.pool j).key ≡ key
        → ((k : ℕ) → Stored t k → (entry_at t.pool k).key ≡ key → k ≡ j)
        → get t key n ≡ value_of (entry_at t.pool j)
        → view t key ≡ some (row_of (entry_at t.pool j))
        → GetSpec
    unbound :
        ((j : ℕ) → Stored t j → (entry_at t.pool j).key ≢ key)
        → get t key n ≡ (err, none)
        → view t key ≡ none
        → GetSpec
