-- ===== src/Kv/Manager.antt =====
-- The table manager: `nos_kv_table_create`, the memory count, and `nos_kv_db_deinit`. A table
-- pointer is its index in `g_tables`. The allocations are taken to succeed.
pub mod Create
use codex_nos.Base.{
  ℕ, zero, suc, ◌+◌, ◌-◌, ◌*◌, Bool, true, false, ◌&&◌, ◌||◌, Option, none, some, List, [], ◌∷◌,
  ◌++◌, CString, str_eq, strncpy, length, replicate, add32, mul32, add64, ltb, leb, ◌==◌,
  if◌then◌else◌,
}
use codex_nos.Kv.Table.{Entry, Table, null_entry, kv_invalid_idx}

abbrev pub max_tables : ℕ
max_tables = 32

-- `sizeof` of `nos_kv_entry_t`, `nos_kv_table_t` and `nos_kv_bucket_t` on 64-bit Linux.
abbrev pub sizeof_entry : ℕ
sizeof_entry = 16

abbrev pub sizeof_table : ℕ
sizeof_table = 96

abbrev pub sizeof_bucket : ℕ
sizeof_bucket = 64

-- `while (bucket_count < capacity) bucket_count <<= 1;`, with `none` when the fuel runs out.
unfoldable pub grow : ℕ → ℕ → ℕ → Option ℕ
grow zero buckets capacity = none
grow (suc fuel) buckets capacity =
    let rest = grow fuel (mul32 buckets 2) capacity in
    if ltb buckets capacity then rest else some buckets

-- The loop that fills the free stack.
unfoldable pub init_free : ℕ → ℕ → List ℕ
init_free i zero = []
init_free i (suc n) = i ∷ init_free (i + 1) n

unfoldable pub new_table : CString → ℕ → ℕ → ℕ → ℕ → Table
unfolding init_free
new_table name key_size max_val_size capacity buckets = record {
  name = strncpy 31 name;
  key_size = key_size;
  max_val_size = max_val_size;
  entry_size = add32 (add32 sizeof_entry key_size) max_val_size;
  capacity = capacity;
  buckets = replicate buckets kv_invalid_idx;
  readers = replicate buckets 0;
  bucket_count = buckets;
  pool = replicate capacity (record null_entry { val = replicate max_val_size 0 });
  free_stack = init_free 0 capacity;
  free_len = capacity;
  used_count = 0;
}

-- The search for a table of the name.
unfoldable pub find_table : ℕ → List Table → CString → Option ℕ
find_table i [] name = none
find_table i (t ∷ ts) name = if str_eq t.name name then some i else find_table (i + 1) ts name

-- `nos_kv_table_create`: the table pointer, or NULL, and the tables. The whole result is `none`
-- when the bucket loop does not end within the fuel.
unfoldable pub table_create :
    ℕ → Option CString → ℕ → ℕ → ℕ → List Table → Option (Option ℕ × List Table)
unfolding grow new_table find_table
table_create fuel none key_size max_val_size capacity ts = some (none, ts)
table_create fuel (some name) key_size max_val_size capacity ts =
    let made : Option (Option ℕ × List Table) = elim (grow fuel 1024 capacity) [
      | none ↦ none
      | some buckets ↦
          some (some (length ts), ts ++ new_table name key_size max_val_size capacity buckets ∷ [])
    ] in
    if key_size == 0 || capacity == 0 then some (none, ts) else elim (find_table 0 ts name) [
      | some i ↦ some (some i, ts)
      | none ↦ if leb max_tables (length ts) then some (none, ts) else made
    ]

-- `nos_kv_get_total_mem_usage`, with `bucket_count * sizeof` and `capacity * (…)` in `size_t`.
unfoldable pub kv_total_mem : List Table → ℕ → ℕ
kv_total_mem [] total = total
kv_total_mem (t ∷ ts) total =
    kv_total_mem ts (
      add64 total (sizeof_table + t.bucket_count * sizeof_bucket + t.capacity * (t.entry_size + 4)))

-- `nos_kv_db_deinit` frees every table.
unfoldable pub kv_db_deinit : List Table → List Table
kv_db_deinit ts = []
