-- ===== src/Kv/Manager/Create.antt =====
-- Creating tables: the bucket loop, the new table, and opening one that exists.
use native.Mathlib.Nat.{pow-suc, pow-succ', mul_assoc, mod-eq_of_lt}
use codex_nos.Base.{
  ℕ, zero, suc, ◌+◌, ◌*◌, ◌^◌, ◌≤◌, ◌<◌, ◌≡◌, ◌∙◌, sym, refl, ap, true, false, ◌||◌, Option, none,
  some, List, [], ◌∷◌, ◌++◌, CString, str_eq, str_eq_self, strncpy, strncpy_short, length, get_or,
  replicate, length-replicate, mul32, ltb, leb, ◌==◌, if◌then◌else◌, arith, Bool-cases, inl, inr,
}
use codex_nos.Kv.Table.{Table, null_entry, kv_invalid_idx, bucket_of}
use codex_nos.Kv.Table.Valid.{IsTable, Valid, total_length, view, find_entry-eq-scan}
use codex_nos.Kv.Manager.{grow, init_free, new_table, find_table, table_create, max_tables}

abbrev two_31 : ℕ
two_31 = 2147483648

pow_pos : (k : ℕ) → 1 ≤ 2 ^ k
pow_pos zero = omega arith
pow_pos (suc k) = let e = pow-suc 2 k in omega (arith, e, pow_pos k)

doubled :
    (buckets j : ℕ)
    → buckets * 2 ^ suc j ≡ two_31
    → (buckets * 2 * 2 ^ j ≡ two_31) × (buckets * 2 ≤ two_31)
doubled buckets j h =
    let e : buckets * 2 * 2 ^ j ≡ two_31 =
      mul_assoc buckets 2 (2 ^ j) ∙ ap (λ z. buckets * z) (sym (pow-succ' 2 j)) ∙ h in
    (e, le_of_mul (buckets * 2) (2 ^ j) (pow_pos j) e)
  where
    le_of_mul : (a b : ℕ) → 1 ≤ b → a * b ≡ two_31 → a ≤ two_31
    le_of_mul a b p q = grind arith

-- The loop ends with enough buckets, if the capacity is at most 2^31.
grow_ends :
    (fuel buckets capacity : ℕ)
    → buckets * 2 ^ fuel ≡ two_31
    → capacity ≤ two_31
    → (r : ℕ) × (grow (suc fuel) buckets capacity ≡ some r) × (capacity ≤ r) × (buckets ≤ r)
unfolding grow
grow_ends zero buckets capacity p small =
    let e : ltb buckets capacity ≡ false = ground arith in
    (buckets, rw e refl, ground arith, omega arith)
grow_ends (suc fuel) buckets capacity p small = elim (Bool-cases (ltb buckets capacity)) [
  | inr done ↦ (buckets, rw done refl, ground arith, omega arith)
  | inl more ↦
      let (p', le) = doubled buckets fuel p in
      let e : mul32 buckets 2 ≡ buckets * 2 = mod-eq_of_lt (omega arith) in
      let (r, q, enough, above) = grow_ends fuel (buckets * 2) capacity p' small in
      (r, rw (more, e) q, enough, omega arith)
]

grow_zero : (fuel capacity : ℕ) → 0 < capacity → grow fuel 0 capacity ≡ none
unfolding grow
grow_zero zero capacity h = refl
grow_zero (suc fuel) capacity h =
    let more : ltb 0 capacity ≡ true = ground arith in rw more (grow_zero fuel capacity h)

-- The loop goes round for ever from any power of two up to 2^31, if the capacity is larger.
grow_never :
    (fuel buckets j capacity : ℕ)
    → buckets * 2 ^ j ≡ two_31
    → two_31 < capacity
    → grow fuel buckets capacity ≡ none
unfolding grow
grow_never zero buckets j capacity p big = refl
grow_never (suc fuel) buckets zero capacity p big =
    let e : buckets ≡ two_31 = omega arith in
    let more : ltb two_31 capacity ≡ true = ground arith in
    rw (e, more) (grow_zero fuel capacity (omega arith))
grow_never (suc fuel) buckets (suc j) capacity p big =
    let (p', le) = doubled buckets j p in
    let e : mul32 buckets 2 ≡ buckets * 2 = mod-eq_of_lt (omega arith) in
    let more : ltb buckets capacity ≡ true = ground arith in
    rw (more, e) (grow_never fuel (buckets * 2) j capacity p' big)

-- A fresh table.
length-init_free : (i n : ℕ) → length (init_free i n) ≡ n
unfolding init_free
length-init_free i zero = refl
length-init_free i (suc n) = ap suc (length-init_free (i + 1) n)

get_or-init_free : (i n k : ℕ) → k < n → get_or (init_free i n) k 0 ≡ i + k
unfolding init_free
get_or-init_free i zero k h = absurd (omega arith)
get_or-init_free i (suc n) zero h = omega arith
get_or-init_free i (suc n) (suc k) h = omega (arith, get_or-init_free (i + 1) n k (omega arith))

get_or-replicate {ℓ} : {A : Type ℓ} (n k : ℕ) (v d : A) → k < n → get_or (replicate n v) k d ≡ v
get_or-replicate zero k v d h = absurd (omega arith)
get_or-replicate (suc n) zero v d h = refl
get_or-replicate (suc n) (suc k) v d h = get_or-replicate n k v d (omega arith)

no_chain : (n b : ℕ) → get_or (replicate {A = List ℕ} n []) b [] ≡ []
no_chain zero b = refl
no_chain (suc n) zero = refl
no_chain (suc n) (suc b) = no_chain n b

total_none : (n : ℕ) → total_length (replicate n []) ≡ 0
total_none zero = refl
total_none (suc n) = omega (arith, total_none n)

module _ (name : CString) (key_size max_val capacity buckets : ℕ) (some_bucket : 0 < buckets)
    (small : capacity < kv_invalid_idx) where
  abbrev fresh : Table
  fresh = new_table name key_size max_val capacity buckets

  fresh-IsTable : IsTable fresh (replicate buckets [])
  unfolding new_table
  fresh-IsTable = record {
    buckets_len = length-replicate buckets kv_invalid_idx;
    chains_len = length-replicate buckets [];
    some_bucket = some_bucket;
    pool_len = length-replicate capacity (record null_entry { val = replicate max_val 0 });
    stack_len = length-init_free 0 capacity;
    small = small;
    counts = omega arith;
    total = total_none buckets;
    bucket = λ b h. rw (no_chain buckets b) (record {
      linked = get_or-replicate buckets b kv_invalid_idx 0 h;
      members = tt;
      keys = tt;
    });
    stack_in = λ k h. omega (arith, get_or-init_free 0 capacity k h);
    stack_distinct = λ j k h h'.
        omega
          (arith, get_or-init_free 0 capacity k h', get_or-init_free 0 capacity j (omega arith));
  }

  -- A new table is valid and binds no key.
  pub new_table_correct : Valid fresh × ((key : List ℕ) → view fresh key ≡ none)
  unfolding view
  new_table_correct = (
    (replicate buckets [], fresh-IsTable),
    λ key.
        rw
          (
            find_entry-eq-scan fresh (replicate buckets []) key fresh-IsTable,
            no_chain buckets (bucket_of fresh key),
          )
          refl,
  )

-- What a successful `nos_kv_table_create` of a new name makes.
pub record Created (name : CString) (key_size max_val capacity : ℕ) (ts : List Table)
    (r : Option (Option ℕ × List Table)) : Type 0 where
  pub table : Table
  pub result : r ≡ some (some (length ts), ts ++ table ∷ [])
  pub valid : Valid table
  pub unbound : (key : List ℕ) → view table key ≡ none
  pub name_kept : table.name ≡ strncpy 31 name
  pub sizes :
      (table.key_size ≡ key_size) × (table.max_val_size ≡ max_val) × (table.capacity ≡ capacity)
  pub all_free : table.free_len ≡ capacity

module _ (name : CString) (key_size max_val capacity : ℕ) (ts : List Table) (has_key : 0 < key_size)
    (has_room : 0 < capacity) (new : find_table 0 ts name ≡ none)
    (below : length ts < max_tables) where
  create_eq :
      (fuel : ℕ) (g : Option ℕ)
      → grow fuel 1024 capacity ≡ g
      → table_create fuel (some name) key_size max_val capacity ts ≡ elim g [
        | none ↦ none
        | some buckets ↦
            some (some (length ts), ts ++ new_table name key_size max_val capacity buckets ∷ [])
      ]
  unfolding table_create
  create_eq fuel g e =
      let a : (key_size == 0 || capacity == 0) ≡ false = ground arith in
      let b : leb max_tables (length ts) ≡ false = ground arith in rw (a, new, b, e) refl

  -- Creating a table of a new name, with a key size and a capacity of at least one and at most 2^31,
  -- below the limit on tables, ends, and adds a valid table with no key bound.
  pub table_create_correct :
      capacity ≤ two_31
      → Created name key_size max_val capacity ts
          (table_create 22 (some name) key_size max_val capacity ts)
  unfolding new_table
  table_create_correct small =
      let (r, g, enough, above) = grow_ends 21 1024 capacity refl small in
      let (v, u) = new_table_correct name key_size max_val capacity r (omega arith) (omega arith) in
      record {
        table = new_table name key_size max_val capacity r;
        result = create_eq 22 (some r) g;
        valid = v;
        unbound = u;
        name_kept = refl;
        sizes = (refl, refl, refl);
        all_free = refl;
      }

  -- Creating a table of a new name, with a key size of at least one and a capacity above 2^31, below
  -- the limit on tables, never returns: no amount of fuel is enough.
  pub table_create-diverges :
      (fuel : ℕ)
      → two_31 < capacity
      → table_create fuel (some name) key_size max_val capacity ts ≡ none
  table_create-diverges fuel big = create_eq fuel none (grow_never fuel 1024 21 capacity refl big)

find_table-append :
    (i : ℕ) (ts : List Table) (t : Table) (name : CString)
    → find_table i ts name ≡ none
    → find_table i (ts ++ t ∷ []) name ≡ (if str_eq t.name name then some (i + length ts) else none)
unfolding find_table
find_table-append i [] t name h = let e : i + 0 ≡ i = omega arith in rw e refl
find_table-append i (u ∷ ts) t name h = elim (Bool-cases (str_eq u.name name)) [
  | inl same ↦ absurd (ground arith)
  | inr other ↦
      let h' : find_table (i + 1) ts name ≡ none = rw other at h in
      let rest = find_table-append (i + 1) ts t name h' in
      let e : i + 1 + length ts ≡ i + suc (length ts) = omega arith in rw (other, rest, e) refl
]

long-ne : (n : ℕ) (s : CString) → n < length s → str_eq (strncpy n s) s ≡ false
long-ne zero [] h = absurd (omega arith)
long-ne zero (c ∷ s) h = refl
long-ne (suc n) [] h = absurd (omega arith)
long-ne (suc n) (c ∷ s) h = ground (arith, long-ne n s (omega arith))

-- Opening a table again by the new name that it was created with finds it exactly if the name has at
-- most 31 bytes; a longer name, which is cut off in the table, is not found.
pub find_created :
    (name : CString) (key_size max_val capacity buckets : ℕ) (ts : List Table)
    → find_table 0 ts name ≡ none
    → find_table 0 (ts ++ new_table name key_size max_val capacity buckets ∷ []) name
      ≡ (if leb (length name) 31 then some (length ts) else none)
unfolding new_table
find_created name key_size max_val capacity buckets ts h =
    let t = new_table name key_size max_val capacity buckets in
    let e : 0 + length ts ≡ length ts = omega arith in
    find_table-append 0 ts t name h ∙ elim (Bool-cases (leb (length name) 31)) [
      | inl short ↦
          let s : str_eq (strncpy 31 name) name ≡ true =
            rw (strncpy_short 31 name (ground arith)) (str_eq_self name) in
          rw (short, s, e) refl
      | inr long ↦
          let s : str_eq (strncpy 31 name) name ≡ false = long-ne 31 name (ground arith) in
          rw (long, s) refl
    ]
