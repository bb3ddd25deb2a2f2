-- ===== src/Kv/Table/Valid.antt =====
-- The invariant of a table, with the chain of indices of each bucket, and the abstract view: what a
-- key is bound to.
use codex_nos.Base.{
  ℕ, zero, suc, ◌+◌, ◌≤◌, ◌<◌, ◌≡◌, ◌≢◌, true, Option, none, some, List, [], ◌∷◌, All, length, take,
  get_or, set, str_eq, str_eq_self, ◌==◌, arith, Bool-cases, inl, inr,
}
use codex_nos.Kv.Table.{Entry, Sub, Table, entry_at, kv_invalid_idx, slot_of, bucket_of, find_entry}
use codex_nos.Kv.Table.Chains.{All-map, IsChain, scan, UniqueKeys, find_loop-eq-scan}
use codex_nos.Kv.Table.Unlink.{Distinct}

abbrev pub total_length : List (List ℕ) → ℕ
total_length [] = 0
total_length (js ∷ jss) = length js + total_length jss

pub length-le-total : (jss : List (List ℕ)) (b : ℕ) → length (get_or jss b []) ≤ total_length jss
length-le-total [] b = omega arith
length-le-total (js ∷ jss) zero = omega arith
length-le-total (js ∷ jss) (suc b) = omega (arith, length-le-total jss b)

pub total_length-set :
    (jss : List (List ℕ)) (b : ℕ) (js : List ℕ)
    → b < length jss
    → total_length (set jss b js) + length (get_or jss b []) ≡ total_length jss + length js
total_length-set [] b js h = absurd (omega arith)
total_length-set (x ∷ jss) zero js h = omega arith
total_length-set (x ∷ jss) (suc b) js h = omega (arith, total_length-set jss b js (omega arith))

-- Index `j` is off the free stack.
abbrev pub NotFree : List ℕ → ℕ → ℕ → Type 0
NotFree stack n j = (k : ℕ) → k < n → get_or stack k 0 ≢ j

-- A member of the chain of bucket `b`.
pub record IsMember (t : Table) (b j : ℕ) : Type 0 where
  pub inside : j < t.capacity
  pub home : slot_of t.bucket_count (entry_at t.pool j).key ≡ b
  pub size : length (entry_at t.pool j).key ≡ t.key_size
  pub taken : NotFree t.free_stack t.free_len j

pub record IsBucket (t : Table) (b : ℕ) (js : List ℕ) : Type 0 where
  pub linked : IsChain t.pool (get_or t.buckets b 0) js
  pub members : All (IsMember t b) js
  pub keys : UniqueKeys t.pool js

pub record IsTable (t : Table) (chains : List (List ℕ)) : Type 0 where
  pub buckets_len : length t.buckets ≡ t.bucket_count
  pub chains_len : length chains ≡ t.bucket_count
  pub some_bucket : 0 < t.bucket_count
  pub pool_len : length t.pool ≡ t.capacity
  pub stack_len : length t.free_stack ≡ t.capacity
  pub small : t.capacity < kv_invalid_idx
  pub counts : t.used_count + t.free_len ≡ t.capacity
  pub total : total_length chains ≡ t.used_count
  pub bucket : (b : ℕ) → b < t.bucket_count → IsBucket t b (get_or chains b [])
  pub stack_in : (k : ℕ) → k < t.free_len → get_or t.free_stack k 0 < t.capacity
  pub stack_distinct :
      (j k : ℕ) → j < k → k < t.free_len → get_or t.free_stack j 0 ≢ get_or t.free_stack k 0

-- Every entry in use is in the chain of its key's bucket, once, and every other entry is free.
abbrev pub Valid : Table → Type 0
Valid t = (chains : List (List ℕ)) × IsTable t chains

pub slot_of-lt : (n : ℕ) (key : List ℕ) → 0 < n → slot_of n key < n
unfolding slot_of
slot_of-lt n key h = omega arith

UniqueKeys-Distinct : (pool : List Entry) (js : List ℕ) → UniqueKeys pool js → Distinct js
UniqueKeys-Distinct pool [] h = tt
UniqueKeys-Distinct pool (j ∷ js) h = (
  All-map
      (λ k ne. elim (Bool-cases (k == j)) [
        | inl same ↦
            let e : k ≡ j = ground arith in
            let e' : str_eq (entry_at pool k).key (entry_at pool j).key ≡ true =
              rw e (str_eq_self (entry_at pool j).key) in
            ground arith
        | inr other ↦ other
      ])
      js (h.0),
  UniqueKeys-Distinct pool js (h.1),
)

pub IsBucket-Distinct : (t : Table) (b : ℕ) (js : List ℕ) → IsBucket t b js → Distinct js
IsBucket-Distinct t b js v = UniqueKeys-Distinct t.pool js v.keys

-- The chain that a key belongs to.
abbrev pub chain_of : Table → List (List ℕ) → List ℕ → List ℕ
chain_of t chains key = get_or chains (bucket_of t key) []

pub find_entry-eq-scan :
    (t : Table) (chains : List (List ℕ)) (key : List ℕ)
    → IsTable t chains
    → find_entry t key ≡ scan t.pool key kv_invalid_idx (chain_of t chains key)
unfolding find_entry
find_entry-eq-scan t chains key v =
    find_loop-eq-scan (t.capacity + 1) t.pool key kv_invalid_idx
      (get_or t.buckets (bucket_of t key) 0) (chain_of t chains key)
      (omega (arith, length-le-total chains (bucket_of t key), v.total, v.counts))
      ((v.bucket (bucket_of t key) (slot_of-lt t.bucket_count key v.some_bucket)).linked)

-- What a client can see of an entry: the valid bytes of the value, and the subscribers.
pub record Row : Type 0 where
  pub val_len : ℕ
  pub bytes : List ℕ
  pub subs : List Sub

abbrev pub row_of : Entry → Row
row_of e = record { val_len = e.val_len; bytes = take e.val_len e.val; subs = e.sub_list }

abbrev pub row_found : List Entry → Option (ℕ × ℕ) → Option Row
row_found pool none = none
row_found pool (some (prev, i)) = some (row_of (entry_at pool i))

-- The abstract table: a finite map from keys to rows.
unfoldable pub view : Table → List ℕ → Option Row
view t key = row_found t.pool (find_entry t key)
