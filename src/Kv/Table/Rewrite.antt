-- ===== src/Kv/Table/Rewrite.antt =====
-- Rewriting an entry in place, with its key and its link kept: the invariant and the view.
use codex_nos.Base.{
  ℕ, ◌<◌, ◌≡◌, ◌∙◌, sym, refl, ap, true, Option, none, some, List, [], ◌∷◌, All, length-set, get_or,
  set, get_or-set, str_eq, str_eq_self, eq_of_str_eq, ◌==◌, if◌then◌else◌, arith, Bool-cases, inl,
  inr,
}
use codex_nos.Kv.Table.{Entry, Table, null_entry, entry_at, kv_invalid_idx, bucket_of, find_entry}
use codex_nos.Kv.Table.Chains.{
  All-map, scan, scan-All, scan-key, Agree, IsChain-Agree, UniqueKeys-Agree, scan-Agree,
}
use codex_nos.Kv.Table.Valid.{
  IsTable, IsBucket, IsMember, row_of, row_found, view, find_entry-eq-scan, chain_of, slot_of-lt,
}

pub All-of {ℓ κ} : {A : Type ℓ} {P : A → Type κ} (f : (x : A) → P x) (xs : List A) → All P xs
All-of f [] = tt
All-of f (x ∷ xs) = (f x, All-of f xs)

-- The entry found for a key lies in the pool, and has the key.
pub found_at :
    (t : Table) (chains : List (List ℕ)) (key : List ℕ) (prev i : ℕ)
    → IsTable t chains
    → find_entry t key ≡ some (prev, i)
    → (i < t.capacity) × ((entry_at t.pool i).key ≡ key)
found_at t chains key prev i v e =
    let b = bucket_of t key in
    let bucket = v.bucket b (slot_of-lt t.bucket_count key v.some_bucket) in
    let e' : scan t.pool key kv_invalid_idx (chain_of t chains key) ≡ some (prev, i) =
      sym (find_entry-eq-scan t chains key v) ∙ e in
    let (m, _) = scan-All2 (chain_of t chains key) bucket e' in
    (m, eq_of_str_eq _ _ (scan-key t.pool key kv_invalid_idx prev i (chain_of t chains key) e'))
  where
    scan-All2 :
        (js : List ℕ)
        → IsBucket t (bucket_of t key) js
        → scan t.pool key kv_invalid_idx js ≡ some (prev, i)
        → (i < t.capacity) × Unit {0}
    scan-All2 [] u e' = absurd (cc)
    scan-All2 (j ∷ js) u e' =
        let inside : All (λ k. k < t.capacity) (j ∷ js) =
          All-map (λ k m. m.inside) (j ∷ js) u.members in
        elim (Bool-cases (str_eq (entry_at t.pool j).key key)) [
          | inl hit ↦
              let f : ◌≡◌ {A = Option (ℕ × ℕ)} (some (kv_invalid_idx, j)) (some (prev, i)) =
                rw hit at e' in
              let same : j ≡ i = ground arith in (rw same at (inside.0), tt)
          | inr miss ↦ (
            (scan-All (λ k. k < t.capacity) t.pool key j prev i js (inside.0) (inside.1)
                (rw miss at e')).1,
            tt,
          )
        ]

module _ (t : Table) (chains : List (List ℕ)) (v : IsTable t chains) (i : ℕ) (w : Entry)
    (hi : i < t.capacity) (next : w.next_idx ≡ (entry_at t.pool i).next_idx)
    (key : w.key ≡ (entry_at t.pool i).key) where
  abbrev pub rewritten : Table
  rewritten = record t { pool = set t.pool i w }

  read_back : (m : ℕ) → entry_at rewritten.pool m ≡ (if i == m then w else entry_at t.pool m)
  read_back m = get_or-set t.pool i m w null_entry (omega (arith, v.pool_len))

  same_key : (m : ℕ) → (entry_at rewritten.pool m).key ≡ (entry_at t.pool m).key
  same_key m = ground (arith, read_back m)

  agree : (js : List ℕ) → Agree t.pool rewritten.pool js
  agree js = All-of (λ m. (ground (arith, read_back m), same_key m)) js

  rewritten-IsMember : (b j : ℕ) → IsMember t b j → IsMember rewritten b j
  rewritten-IsMember b j m = record {
    inside = m.inside;
    home = rw (same_key j) (m.home);
    size = rw (same_key j) (m.size);
    taken = m.taken;
  }

  pub rewritten-IsTable : IsTable rewritten chains
  rewritten-IsTable = record {
    buckets_len = v.buckets_len;
    chains_len = v.chains_len;
    some_bucket = v.some_bucket;
    pool_len = length-set t.pool i w ∙ v.pool_len;
    stack_len = v.stack_len;
    small = v.small;
    counts = v.counts;
    total = v.total;
    bucket = λ b h.
        let u = v.bucket b h in
        let js = get_or chains b [] in
        record {
          linked =
              IsChain-Agree t.pool rewritten.pool (get_or t.buckets b 0) js (agree js) u.linked;
          members = All-map (rewritten-IsMember b) js u.members;
          keys = UniqueKeys-Agree t.pool rewritten.pool js (agree js) u.keys;
        };
    stack_in = v.stack_in;
    stack_distinct = v.stack_distinct;
  }

  find_entry-rewritten : (k : List ℕ) → find_entry rewritten k ≡ find_entry t k
  find_entry-rewritten k =
      let js = chain_of t chains k in
      find_entry-eq-scan rewritten chains k rewritten-IsTable
      ∙ scan-Agree t.pool rewritten.pool k kv_invalid_idx js (agree js)
      ∙ sym (find_entry-eq-scan t chains k v)

  module _ (k : List ℕ) (prev : ℕ) (found : find_entry t k ≡ some (prev, i)) where
    row-rewritten :
        (k' : List ℕ) (o : Option (ℕ × ℕ))
        → find_entry t k' ≡ o
        → row_found rewritten.pool o ≡ (if str_eq k k' then some (row_of w) else row_found t.pool o)
    row-rewritten k' none e = elim (Bool-cases (str_eq k k')) [
      | inl same ↦
          let e' : k ≡ k' = eq_of_str_eq k k' same in
          let f : find_entry t k' ≡ some (prev, i) = rw e' at found in absurd (ground (arith, f, e))
      | inr other ↦ rw other refl
    ]
    row-rewritten k' (some (q, m)) e = elim (Bool-cases (str_eq k k')) [
      | inl same ↦
          let e' : k ≡ k' = eq_of_str_eq k k' same in
          let f : find_entry t k' ≡ some (prev, i) = rw e' at found in
          let im : i ≡ m = ground (arith, f, e) in
          let r : entry_at rewritten.pool m ≡ w = ground (arith, read_back m) in rw (same, r) refl
      | inr other ↦
          let (_, ki) = found_at t chains k prev i v found in
          let (_, km) = found_at t chains k' q m v e in
          elim (Bool-cases (i == m)) [
            | inl im ↦
                let im' : i ≡ m = ground arith in
                let kk : k ≡ k' = sym ki ∙ ap (λ n. (entry_at t.pool n).key) im' ∙ km in
                let bad : str_eq k k' ≡ true = rw kk (str_eq_self k') in absurd (ground arith)
            | inr ne ↦
                let r : entry_at rewritten.pool m ≡ entry_at t.pool m =
                  ground (arith, read_back m) in
                rw (other, r) refl
          ]
    ]

    -- Only the row of the key changes.
    pub view-rewritten :
        (k' : List ℕ) → view rewritten k' ≡ (if str_eq k k' then some (row_of w) else view t k')
    unfolding view
    view-rewritten k' = rw (find_entry-rewritten k') (row-rewritten k' (find_entry t k') refl)
