-- ===== src/Kv/Table/Insert.antt =====
-- Linking a fresh entry, taken from the free stack, in front of its bucket's chain.
use codex_nos.Base.{
  ℕ, ◌-◌, ◌<◌, ◌≡◌, ◌∙◌, sym, refl, ap, false, none, some, List, [], ◌∷◌, All, length, length-set,
  get_or, set, get_or-set, str_eq, eq_of_str_eq, ◌==◌, if◌then◌else◌, arith, Bool-cases, inl, inr,
  add32,
}
use mathlib.Core.Path.{subst}
use codex_nos.Kv.Table.{
  Entry, Table, null_entry, entry_at, kv_invalid_idx, slot_of, bucket_of, find_entry,
}
use codex_nos.Kv.Table.Chains.{
  All-map, scan, KeyNotIn, Agree, IsChain-Agree, UniqueKeys-Agree, KeyNotIn-Agree, scan-none_iff,
}
use codex_nos.Kv.Table.Valid.{
  IsTable, IsBucket, IsMember, row_of, row_found, view, find_entry-eq-scan, slot_of-lt,
  total_length-set,
}

module _ (t : Table) (chains : List (List ℕ)) (v : IsTable t chains) (key : List ℕ) (w : Entry)
    (free : 0 < t.free_len) (absent : find_entry t key ≡ none) (size : length key ≡ t.key_size)
    (w_key : w.key ≡ key) (w_next : w.next_idx ≡ get_or t.buckets (bucket_of t key) 0) where
  abbrev home : ℕ
  home = bucket_of t key

  abbrev pub top : ℕ
  top = get_or t.free_stack (t.free_len - 1) 0

  abbrev pub inserted : Table
  inserted = record t {
    free_len = t.free_len - 1;
    pool = set t.pool top w;
    buckets = set t.buckets home top;
    used_count = add32 t.used_count 1;
  }

  abbrev pub chains' : List (List ℕ)
  chains' = set chains home (top ∷ get_or chains home [])

  home_in : home < t.bucket_count
  home_in = slot_of-lt t.bucket_count key v.some_bucket

  top_in : top < t.capacity
  top_in = v.stack_in (t.free_len - 1) (omega arith)

  read_back : (m : ℕ) → entry_at inserted.pool m ≡ (if top == m then w else entry_at t.pool m)
  read_back m = get_or-set t.pool top m w null_entry (omega (arith, v.pool_len, top_in))

  -- A member of an old chain is not the fresh entry, and is untouched.
  member-ne : (b j : ℕ) → IsMember t b j → (top == j) ≡ false
  member-ne b j m = ground (arith, m.taken (t.free_len - 1))

  member-same : (b j : ℕ) → IsMember t b j → entry_at inserted.pool j ≡ entry_at t.pool j
  member-same b j m = ground (arith, read_back j, member-ne b j m)

  agree : (b : ℕ) (js : List ℕ) → All (IsMember t b) js → Agree t.pool inserted.pool js
  agree b js ms =
      All-map
        (λ j m. (ap (λ e. e.next_idx) (member-same b j m), ap (λ e. e.key) (member-same b j m))) js
        ms

  old-IsMember : (b j : ℕ) → IsMember t b j → IsMember inserted b j
  old-IsMember b j m =
      let same = member-same b j m in
      record {
        inside = m.inside;
        home = rw same (m.home);
        size = rw same (m.size);
        taken = λ k h. m.taken k (omega arith);
      }

  fresh_entry : entry_at inserted.pool top ≡ w
  fresh_entry = ground (arith, read_back top)

  fresh_key : (entry_at inserted.pool top).key ≡ key
  fresh_key = ap (λ e. e.key) fresh_entry ∙ w_key

  fresh-IsMember : IsMember inserted home top
  fresh-IsMember = record {
    inside = top_in;
    home = rw (fresh_entry, w_key) refl;
    size = rw (fresh_entry, w_key) size;
    taken = λ k h. v.stack_distinct k (t.free_len - 1) (omega arith) (omega arith);
  }

  absent_keys : KeyNotIn t.pool key (get_or chains home [])
  absent_keys =
      scan-none_iff t.pool key kv_invalid_idx (get_or chains home [])
        (sym (find_entry-eq-scan t chains key v) ∙ absent)

  new-IsBucket : IsBucket inserted home (top ∷ get_or chains home [])
  new-IsBucket =
      let u = v.bucket home home_in in
      let js = get_or chains home [] in
      let a = agree home js u.members in
      let first : get_or inserted.buckets home 0 ≡ top =
        ground
          (arith, get_or-set t.buckets home home top 0 (omega (arith, v.buckets_len, home_in))) in
      record {
        linked = (
          first,
          omega (arith, top_in, v.small),
          rw (fresh_entry, w_next)
              (IsChain-Agree t.pool inserted.pool (get_or t.buckets home 0) js a u.linked),
        );
        members = (fresh-IsMember, All-map (old-IsMember home) js u.members);
        keys = (
          subst (λ z. KeyNotIn inserted.pool z js) (sym fresh_key)
              (KeyNotIn-Agree t.pool inserted.pool key js a absent_keys),
          UniqueKeys-Agree t.pool inserted.pool js a u.keys,
        );
      }

  old-IsBucket :
      (b : ℕ) → b < t.bucket_count → (home == b) ≡ false → IsBucket inserted b (get_or chains b [])
  old-IsBucket b h ne =
      let u = v.bucket b h in
      let js = get_or chains b [] in
      let a = agree b js u.members in
      let first : get_or inserted.buckets b 0 ≡ get_or t.buckets b 0 =
        ground (arith, get_or-set t.buckets home b top 0 (omega (arith, v.buckets_len, home_in))) in
      record {
        linked = rw first (IsChain-Agree t.pool inserted.pool (get_or t.buckets b 0) js a u.linked);
        members = All-map (old-IsMember b) js u.members;
        keys = UniqueKeys-Agree t.pool inserted.pool js a u.keys;
      }

  chain-if :
      (b : ℕ)
      → get_or chains' b []
        ≡ (if home == b then top ∷ get_or chains home [] else get_or chains b [])
  chain-if b =
      get_or-set chains home b (top ∷ get_or chains home []) []
        (omega (arith, v.chains_len, home_in))

  pub inserted-IsTable : IsTable inserted chains'
  inserted-IsTable = record {
    buckets_len = length-set t.buckets home top ∙ v.buckets_len;
    chains_len = length-set chains home (top ∷ get_or chains home []) ∙ v.chains_len;
    some_bucket = v.some_bucket;
    pool_len = length-set t.pool top w ∙ v.pool_len;
    stack_len = v.stack_len;
    small = v.small;
    counts = omega (arith, v.counts, v.small);
    total = omega (
      arith,
      v.total,
      v.counts,
      v.small,
      total_length-set chains home (top ∷ get_or chains home [])
          (omega (arith, v.chains_len, home_in)),
    );
    bucket = λ b h. elim (Bool-cases (home == b)) [
      | inl same ↦
          let e : home ≡ b = ground arith in
          rw (chain-if b, same)
            (subst (λ z. IsBucket inserted z (top ∷ get_or chains home [])) e new-IsBucket)
      | inr other ↦ rw (chain-if b, other) (old-IsBucket b h other)
    ];
    stack_in = λ k h. v.stack_in k (omega arith);
    stack_distinct = λ j k h h'. v.stack_distinct j k h (omega arith);
  }

  -- The walk in the new table.
  scan-row :
      (k' : List ℕ) (p q : ℕ) (b : ℕ) (js : List ℕ)
      → All (IsMember t b) js
      → row_found inserted.pool (scan inserted.pool k' p js)
        ≡ row_found t.pool (scan t.pool k' q js)
  scan-row k' p q b [] ms = refl
  scan-row k' p q b (j ∷ js) ms =
      let same = member-same b j (ms.0) in
      let rest = scan-row k' j j b js (ms.1) in
      elim (Bool-cases (str_eq (entry_at t.pool j).key k')) [
        | inl hit ↦ rw (same, hit) (rw same refl)
        | inr miss ↦ rw (same, miss) rest
      ]

  -- The key is bound to the fresh row, and no other binding changes.
  pub view-inserted :
      (k' : List ℕ) → view inserted k' ≡ (if str_eq key k' then some (row_of w) else view t k')
  unfolding view
  view-inserted k' =
      let b = bucket_of t k' in
      let hb = slot_of-lt t.bucket_count k' v.some_bucket in
      let ms = (v.bucket b hb).members in
      let js = get_or chains b [] in
      rw
        (
          find_entry-eq-scan inserted chains' k' inserted-IsTable,
          find_entry-eq-scan t chains k' v,
          chain-if b,
        )
        (elim (Bool-cases (home == b)) [
          | inr other ↦
              let ne : str_eq key k' ≡ false = elim (Bool-cases (str_eq key k')) [
                | inl same ↦
                    let e : key ≡ k' = eq_of_str_eq key k' same in
                    let e' : home ≡ b = ap (slot_of t.bucket_count) e in absurd (ground arith)
                | inr f ↦ f
              ] in
              rw (other, ne) (scan-row k' kv_invalid_idx kv_invalid_idx b js ms)
          | inl same ↦
              let e : home ≡ b = ground arith in
              rw (same, fresh_key)
                (elim (Bool-cases (str_eq key k')) [
                  | inl hit ↦ rw (hit, fresh_entry) refl
                  | inr miss ↦ rw (miss, e) (scan-row k' top kv_invalid_idx b js ms)
                ])
        ])
