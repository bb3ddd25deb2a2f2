-- ===== src/Kv/Table.antt =====
-- The operations on one table. Arguments stand behind non-null pointers (a null one is NOS_ERR and
-- changes nothing); `key` is the `key_size` bytes behind its pointer. Each call holds the lock of
-- the key's bucket, so it is one step. `free_len` is the source's `free_top + 1`.
pub mod Chains
pub mod Unlink
pub mod Valid
pub mod Rewrite
pub mod Insert
pub mod Erase
pub mod Erased
pub mod Laws
pub mod Subscribers
pub mod Subs
pub mod Memory
pub mod Bindings
use codex_nos.Kv.Hash.{murmurhash3_32}
use codex_nos.Base.{
  ℕ, zero, suc, ◌+◌, ◌-◌, ◌%◌, Bool, true, false, ◌&&◌, Option, none, some, List, [], ◌∷◌, ◌++◌,
  Status, ok, err, err_busy, CString, str_eq, get_or, set, take, drop, add32, sub32, mul32, ◌*◌,
  ◌^◌, ◌≤◌, ltb, ◌==◌, if◌then◌else◌,
}

-- `nos_kv_sub_t`: the callback and its argument.
pub record Sub : Type 0 where
  pub notify : ℕ
  pub arg : ℕ

-- `nos_kv_entry_t`, with the key bytes and the value bytes of `data`.
pub record Entry : Type 0 where
  pub next_idx : ℕ
  pub val_len : ℕ
  pub sub_list : List Sub
  pub key : List ℕ
  pub val : List ℕ

abbrev pub kv_invalid_idx : ℕ
kv_invalid_idx = 0xFFFFFFFF

abbrev pub null_entry : Entry
null_entry = record { next_idx = 0; val_len = 0; sub_list = []; key = []; val = [] }

-- `struct nos_kv_table`; `readers` counts the read locks that `nos_kv_get_ptr` leaves held.
pub record Table : Type 0 where
  pub name : CString
  pub key_size : ℕ
  pub max_val_size : ℕ
  pub entry_size : ℕ
  pub capacity : ℕ
  pub buckets : List ℕ
  pub readers : List ℕ
  pub bucket_count : ℕ
  pub pool : List Entry
  pub free_stack : List ℕ
  pub free_len : ℕ
  pub used_count : ℕ

-- The bytes from the start of the pool to an entry, in `get_entry`: a product of 32 bits.
abbrev pub entry_offset : Table → ℕ → ℕ
entry_offset t i = mul32 i t.entry_size

-- A pool of at most 4 GiB, for which the product does not wrap.
abbrev pub Addressable : Table → Type 0
Addressable t = t.capacity * t.entry_size ≤ 2 ^ 32

-- The entry of `get_entry`. The list stands for the memory of a pool that is `Addressable`: only
-- there do the offsets of the entries lie apart (Kv/Table/Memory.antt).
abbrev pub entry_at : List Entry → ℕ → Entry
entry_at pool i = get_or pool i null_entry

-- `hash % bucket_count`
unfoldable pub slot_of : ℕ → List ℕ → ℕ
slot_of bucket_count key = murmurhash3_32 key 0 % bucket_count

abbrev pub bucket_of : Table → List ℕ → ℕ
bucket_of t key = slot_of t.bucket_count key

-- The walk along a chain, the same in every operation: the previous index and the index of the
-- entry with the key.
unfoldable pub find_loop : ℕ → List Entry → List ℕ → ℕ → ℕ → Option (ℕ × ℕ)
find_loop zero pool key prev curr = none
find_loop (suc fuel) pool key prev curr =
    let rest = find_loop fuel pool key curr (entry_at pool curr).next_idx in
    let step = if str_eq (entry_at pool curr).key key then some (prev, curr) else rest in
    if curr == kv_invalid_idx then none else step

unfoldable pub find_entry : Table → List ℕ → Option (ℕ × ℕ)
unfolding find_loop slot_of
find_entry t key =
    find_loop (t.capacity + 1) t.pool key kv_invalid_idx (get_or t.buckets (bucket_of t key) 0)

-- `if (val) memcpy(…, val, val_len)`
abbrev pub write_val : Option (List ℕ) → ℕ → List ℕ → List ℕ
write_val none n old = old
write_val (some v) n old = take n v ++ drop n old

-- `nos_kv_put`: the status, the subscribers that are notified after the unlock, in order, and the
-- new table.
unfoldable pub put : Table → List ℕ → Option (List ℕ) → ℕ → Status × List Sub × Table
unfolding find_entry
put t key val val_len =
    let b = bucket_of t key in
    let idx = get_or t.free_stack (t.free_len - 1) 0 in
    let update = λ (i : ℕ).
      let e = entry_at t.pool i in
      record t {
        pool = set t.pool i (record e { val = write_val val val_len e.val; val_len = val_len });
      } in
    let fresh : Entry = record {
      next_idx = get_or t.buckets b 0;
      val_len = val_len;
      sub_list = [];
      key = key;
      val = write_val val val_len (entry_at t.pool idx).val;
    } in
    let add : Table = record t {
      free_len = t.free_len - 1;
      pool = set t.pool idx fresh;
      buckets = set t.buckets b idx;
      used_count = add32 t.used_count 1;
    } in
    if ltb t.max_val_size val_len then (err, [], t) else elim (find_entry t key) [
      | some (prev, i) ↦ (ok, (entry_at t.pool i).sub_list, update i)
      | none ↦ if t.free_len == 0 then (err_busy, [], t) else (ok, [], add)
    ]

-- `nos_kv_get` with a buffer of `n` bytes: the bytes copied, and the new `*val_len`.
unfoldable pub get : Table → List ℕ → ℕ → Status × Option (List ℕ × ℕ)
unfolding find_entry
get t key n = elim (find_entry t key) [
  | none ↦ (err, none)
  | some (prev, i) ↦
      let e = entry_at t.pool i in
      (ok, some (take (if ltb n e.val_len then n else e.val_len) e.val, e.val_len))
]

-- `nos_kv_get_ptr`: the entry whose value is pointed to, its length, and the bucket whose read lock
-- the handle holds.
unfoldable pub get_ptr : Table → List ℕ → Status × Option (ℕ × ℕ × ℕ) × Table
unfolding find_entry
get_ptr t key =
    let b = bucket_of t key in
    elim (find_entry t key) [
      | none ↦ (err, none, t)
      | some (prev, i) ↦ (
        ok,
        some (i, (entry_at t.pool i).val_len, b),
        record t { readers = set t.readers b (get_or t.readers b 0 + 1) },
      )
    ]

-- `nos_kv_release_ptr`, of a handle on bucket `b`.
unfoldable pub release_ptr : Table → Option ℕ → Table
release_ptr t none = t
release_ptr t (some b) = record t { readers = set t.readers b (get_or t.readers b 0 - 1) }

abbrev pub sub_eq : Sub → ℕ → ℕ → Bool
sub_eq s notify arg = s.notify == notify && s.arg == arg

-- The two loops over an entry's subscribers.
unfoldable pub has_sub : List Sub → ℕ → ℕ → Bool
has_sub [] notify arg = false
has_sub (s ∷ ss) notify arg = if sub_eq s notify arg then true else has_sub ss notify arg

unfoldable pub remove_sub : List Sub → ℕ → ℕ → List Sub
remove_sub [] notify arg = []
remove_sub (s ∷ ss) notify arg = if sub_eq s notify arg then ss else s ∷ remove_sub ss notify arg

abbrev pub set_subs : Table → ℕ → List Sub → Table
set_subs t i subs = record t {
  pool = set t.pool i (record (entry_at t.pool i) { sub_list = subs });
}

-- `nos_kv_subscribe`
unfoldable pub subscribe : Table → List ℕ → ℕ → ℕ → Status × Table
unfolding find_entry has_sub
subscribe t key notify arg = elim (find_entry t key) [
  | none ↦ (err, t)
  | some (prev, i) ↦
      let subs = (entry_at t.pool i).sub_list in
      if has_sub subs notify arg
      then (ok, t)
      else (ok, set_subs t i (record { notify = notify; arg = arg } ∷ subs))
]

-- `nos_kv_unsubscribe`
unfoldable pub unsubscribe : Table → List ℕ → ℕ → ℕ → Status × Table
unfolding find_entry has_sub remove_sub
unsubscribe t key notify arg = elim (find_entry t key) [
  | none ↦ (err, t)
  | some (prev, i) ↦
      let subs = (entry_at t.pool i).sub_list in
      if has_sub subs notify arg then (ok, set_subs t i (remove_sub subs notify arg)) else (err, t)
]

-- `nos_kv_del`
unfoldable pub del : Table → List ℕ → Status × Table
unfolding find_entry
del t key =
    let b = bucket_of t key in
    elim (find_entry t key) [
      | none ↦ (err, t)
      | some (prev, i) ↦
          let next = (entry_at t.pool i).next_idx in
          let first = prev == kv_invalid_idx in
          let linked =
            if first
            then t.pool
            else set t.pool prev (record (entry_at t.pool prev) { next_idx = next }) in
          (
            ok,
            record t {
              buckets = if first then set t.buckets b next else t.buckets;
              pool = set linked i (record (entry_at linked i) { sub_list = [] });
              free_stack = set t.free_stack t.free_len i;
              free_len = t.free_len + 1;
              used_count = sub32 t.used_count 1;
            },
          )
    ]
