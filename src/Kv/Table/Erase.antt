-- ===== src/Kv/Table/Erase.antt =====
-- Unlinking the entry of a key and giving its index back to the free stack.
use mathlib.Core.Path.{subst}
use codex_nos.Base.{
  ℕ, ◌+◌, ◌<◌, ◌≡◌, ◌∙◌, sym, refl, ap, Bool, true, false, Option, some, List, [], ◌∷◌, All, length,
  length-set, get_or, set, get_or-set, str_eq, str_eq_self, eq_of_str_eq, ◌==◌, if◌then◌else◌,
  arith, Bool-cases, inl, inr, sub32,
}
use codex_nos.Kv.Table.{
  Entry, Table, null_entry, entry_at, kv_invalid_idx, slot_of, bucket_of, find_entry,
}
use codex_nos.Kv.Table.Chains.{
  All-map, IsChain, scan, scan-All, KeyNotIn, UniqueKeys, Agree, IsChain-Agree,
}
use codex_nos.Kv.Table.Unlink.{
  without, without-All, without-UniqueKeys, length-without, bypass, entry_at-bypass, unlink_behind,
  Distinct,
}
use codex_nos.Kv.Table.Valid.{
  IsTable, IsBucket, IsMember, IsBucket-Distinct, row_of, find_entry-eq-scan, slot_of-lt,
  length-le-total, total_length-set,
}
use codex_nos.Kv.Table.Rewrite.{All-of, found_at}

-- With unique keys, nothing that is left has the key.
pub without-KeyNotIn :
    (pool : List Entry) (key : List ℕ) (js : List ℕ)
    → UniqueKeys pool js
    → KeyNotIn pool key (without pool key js)
without-KeyNotIn pool key [] u = tt
without-KeyNotIn pool key (j ∷ js) u = elim (Bool-cases (str_eq (entry_at pool j).key key)) [
  | inl hit ↦
      let e : (entry_at pool j).key ≡ key = eq_of_str_eq (entry_at pool j).key key hit in
      rw hit (subst (λ z. KeyNotIn pool z js) e (u.0))
  | inr miss ↦ rw miss (miss, without-KeyNotIn pool key js (u.1))
]

-- The keys decide, whatever the links are.
pub KeyNotIn-same :
    (pool pool' : List Entry) (key : List ℕ) (js : List ℕ)
    → ((m : ℕ) → (entry_at pool' m).key ≡ (entry_at pool m).key)
    → KeyNotIn pool key js
    → KeyNotIn pool' key js
KeyNotIn-same pool pool' key [] same h = tt
KeyNotIn-same pool pool' key (j ∷ js) same h =
    (rw (same j) (h.0), KeyNotIn-same pool pool' key js same (h.1))

UniqueKeys-same :
    (pool pool' : List Entry) (js : List ℕ)
    → ((m : ℕ) → (entry_at pool' m).key ≡ (entry_at pool m).key)
    → UniqueKeys pool js
    → UniqueKeys pool' js
UniqueKeys-same pool pool' [] same u = tt
UniqueKeys-same pool pool' (j ∷ js) same u = (
  rw (same j) (KeyNotIn-same pool pool' (entry_at pool j).key js same (u.0)),
  UniqueKeys-same pool pool' js same (u.1),
)

module _ (t : Table) (chains : List (List ℕ)) (v : IsTable t chains) (key : List ℕ) (prev i : ℕ)
    (found : find_entry t key ≡ some (prev, i)) where
  abbrev home : ℕ
  home = bucket_of t key

  abbrev first : Bool
  first = prev == kv_invalid_idx

  abbrev linked : List Entry
  linked = if first then t.pool else bypass t.pool prev i

  abbrev pub erased : Table
  erased = record t {
    buckets = if first then set t.buckets home (entry_at t.pool i).next_idx else t.buckets;
    pool = set linked i (record (entry_at linked i) { sub_list = [] });
    free_stack = set t.free_stack t.free_len i;
    free_len = t.free_len + 1;
    used_count = sub32 t.used_count 1;
  }

  abbrev js : List ℕ
  js = get_or chains home []

  abbrev pub chains' : List (List ℕ)
  chains' = set chains home (without t.pool key js)

  home_in : home < t.bucket_count
  home_in = slot_of-lt t.bucket_count key v.some_bucket

  bucket : IsBucket t home js
  bucket = v.bucket home home_in

  scanned : scan t.pool key kv_invalid_idx js ≡ some (prev, i)
  scanned = sym (find_entry-eq-scan t chains key v) ∙ found

  i_in : i < t.capacity
  i_in = (found_at t chains key prev i v found).0

  pub i_key : (entry_at t.pool i).key ≡ key
  i_key = (found_at t chains key prev i v found).1

  -- The predecessor is no entry, or a member of the same chain.
  prev_cases_in :
      (ks : List ℕ)
      → IsBucket t home ks
      → scan t.pool key kv_invalid_idx ks ≡ some (prev, i)
      → IsMember t home i × (if first then Unit {0} else IsMember t home prev)
  prev_cases_in [] u e = absurd (cc)
  prev_cases_in (k ∷ ks) u e = elim (Bool-cases (str_eq (entry_at t.pool k).key key)) [
    | inl hit ↦
        let f : ◌≡◌ {A = Option (ℕ × ℕ)} (some (kv_invalid_idx, k)) (some (prev, i)) =
          rw hit at e in
        let pe : prev ≡ kv_invalid_idx = ground arith in
        let ie : k ≡ i = ground arith in
        let fst : first ≡ true = ground arith in (rw ie at (u.members.0), rw fst tt)
    | inr miss ↦
        let (mp, mi) =
          scan-All (IsMember t home) t.pool key k prev i ks (u.members.0) (u.members.1)
            (rw miss at e) in
        let fst : first ≡ false = ground (arith, mp.inside, v.small) in (mi, rw fst mp)
  ]

  i-IsMember : IsMember t home i
  i-IsMember = (prev_cases_in js bucket scanned).0

  prev-IsMember : first ≡ false → IsMember t home prev
  prev-IsMember e = rw e at ((prev_cases_in js bucket scanned).1)

  -- What the new pool holds at each index.
  linked_at :
      (m : ℕ)
      → ((entry_at linked m).key ≡ (entry_at t.pool m).key)
        × (row_of (entry_at linked m) ≡ row_of (entry_at t.pool m))
  linked_at m = elim (Bool-cases first) [
    | inl f ↦ rw f (refl, refl)
    | inr f ↦
        let at =
          entry_at-bypass t.pool prev i m (omega (arith, (prev-IsMember f).inside, v.pool_len)) in
        rw f (ground (arith, at), ground (arith, at))
  ]

  linked_len : length linked ≡ t.capacity
  linked_len = elim (Bool-cases first) [
    | inl f ↦ rw f v.pool_len
    | inr f ↦ rw f (
        length-set t.pool prev
          (record (entry_at t.pool prev) { next_idx = (entry_at t.pool i).next_idx })
        ∙ v.pool_len)
  ]

  read_back :
      (m : ℕ)
      → entry_at erased.pool m
        ≡ (if i == m then record (entry_at linked i) { sub_list = [] } else entry_at linked m)
  read_back m =
      get_or-set linked i m (record (entry_at linked i) { sub_list = [] }) null_entry
        (omega (arith, linked_len, i_in))

  same_link : (m : ℕ) → (entry_at erased.pool m).next_idx ≡ (entry_at linked m).next_idx
  same_link m = ground (arith, read_back m)

  pub same_key : (m : ℕ) → (entry_at erased.pool m).key ≡ (entry_at t.pool m).key
  same_key m = ground (arith, read_back m, linked_at m)

  pub same_row :
      (m : ℕ) → (i == m) ≡ false → row_of (entry_at erased.pool m) ≡ row_of (entry_at t.pool m)
  same_row m ne = ground (arith, read_back m, linked_at m)

  Agree-linked : (ks : List ℕ) → Agree linked erased.pool ks
  Agree-linked ks = All-of (λ m. (same_link m, same_key m ∙ sym ((linked_at m).0))) ks

  -- The links of the shortened chain, by whether its first entry goes.
  abbrev ByFirst : Bool → List ℕ → Type 0
  ByFirst z =
      IsChain (if z then t.pool else bypass t.pool prev i)
        (if z then (entry_at t.pool i).next_idx else get_or t.buckets home 0)

  linked_chain_in :
      (ks : List ℕ)
      → Distinct ks
      → IsBucket t home ks
      → scan t.pool key kv_invalid_idx ks ≡ some (prev, i)
      → ByFirst first (without t.pool key ks)
  linked_chain_in [] d u e = absurd (cc)
  linked_chain_in (k ∷ ks) d u e = elim (Bool-cases (str_eq (entry_at t.pool k).key key)) [
    | inl hit ↦
        let f : ◌≡◌ {A = Option (ℕ × ℕ)} (some (kv_invalid_idx, k)) (some (prev, i)) =
          rw hit at e in
        let ie : i ≡ k = ground arith in
        let fst : first ≡ true = ground arith in
        rw hit (subst (λ z. ByFirst z ks) (sym fst) (rw ie (u.linked.2)))
    | inr miss ↦
        let e' : scan t.pool key k ks ≡ some (prev, i) = rw miss at e in
        let (mp, mi) =
          scan-All (IsMember t home) t.pool key k prev i ks (u.members.0) (u.members.1) e' in
        let fst : first ≡ false = ground (arith, mp.inside, v.small) in
        rw miss (
          subst (λ z. ByFirst z (k ∷ without t.pool key ks)) (sym fst)
            (
              u.linked.0,
              u.linked.1,
              unlink_behind t.pool key k prev i ks (omega (arith, mp.inside, v.pool_len)) (d.0)
                  (d.1) (u.linked.2) e',
            ))
  ]

  left_members : All (λ m. IsMember t home m × ((i == m) ≡ false)) (without t.pool key js)
  left_members =
      both (without t.pool key js) (without-All (IsMember t home) t.pool key js bucket.members)
        (without-KeyNotIn t.pool key js bucket.keys)
    where
      both :
          (ks : List ℕ)
          → All (IsMember t home) ks
          → KeyNotIn t.pool key ks
          → All (λ m. IsMember t home m × ((i == m) ≡ false)) ks
      both [] a n = tt
      both (k ∷ ks) a n =
          let ne : (i == k) ≡ false = elim (Bool-cases (i == k)) [
            | inl same ↦
                let e : i ≡ k = ground arith in
                let kk : (entry_at t.pool k).key ≡ key =
                  ap (λ z. (entry_at t.pool z).key) (sym e) ∙ i_key in
                let hit : str_eq (entry_at t.pool k).key key ≡ true = rw kk (str_eq_self key) in
                absurd (ground (arith, n.0))
            | inr f ↦ f
          ] in
          ((a.0, ne), both ks (a.1) (n.1))

  free_room : t.free_len < t.capacity
  free_room = omega (
    arith,
    length-without t.pool key kv_invalid_idx prev i js scanned,
    length-le-total chains home,
    v.total,
    v.counts,
  )

  stack_at :
      (k : ℕ)
      → get_or erased.free_stack k 0 ≡ (if t.free_len == k then i else get_or t.free_stack k 0)
  stack_at k = get_or-set t.free_stack t.free_len k i 0 (omega (arith, v.stack_len, free_room))

  kept-IsMember : (b m : ℕ) → IsMember t b m → (i == m) ≡ false → IsMember erased b m
  kept-IsMember b m a ne = record {
    inside = a.inside;
    home = rw (same_key m) (a.home);
    size = rw (same_key m) (a.size);
    taken = λ k h. ground (arith, stack_at k, a.taken k);
  }

  new-IsBucket : IsBucket erased home (without t.pool key js)
  new-IsBucket =
      let ks = without t.pool key js in
      let c = linked_chain_in js (IsBucket-Distinct t home js bucket) bucket scanned in
      let start : get_or erased.buckets home 0
          ≡ (if first then (entry_at t.pool i).next_idx else get_or t.buckets home 0) =
        ground (
          arith,
          get_or-set t.buckets home home (entry_at t.pool i).next_idx 0
              (omega (arith, v.buckets_len, home_in)),
        ) in
      record {
        linked = rw start (IsChain-Agree linked erased.pool _ ks (Agree-linked ks) c);
        members = All-map (λ m a. kept-IsMember home m (a.0) (a.1)) ks left_members;
        keys =
            UniqueKeys-same t.pool erased.pool ks (λ m. same_key m)
              (without-UniqueKeys t.pool key js bucket.keys);
      }

  -- A member of another chain is neither the erased entry nor its predecessor.
  other-member :
      (b m : ℕ)
      → IsMember t b m
      → (home == b) ≡ false
      → ((i == m) ≡ false) × ((entry_at linked m).next_idx ≡ (entry_at t.pool m).next_idx)
  other-member b m a ne =
      let i_ne : (i == m) ≡ false = elim (Bool-cases (i == m)) [
        | inl same ↦
            let e : i ≡ m = ground arith in
            let h : home ≡ b =
              sym (i-IsMember.home)
              ∙ ap (λ z. slot_of t.bucket_count (entry_at t.pool z).key) e
              ∙ a.home in
            absurd (ground arith)
        | inr f ↦ f
      ] in
      (
        i_ne,
        elim (Bool-cases first) [
          | inl f ↦ rw f refl
          | inr f ↦
              let p = prev-IsMember f in
              let at = entry_at-bypass t.pool prev i m (omega (arith, p.inside, v.pool_len)) in
              let p_ne : (prev == m) ≡ false = elim (Bool-cases (prev == m)) [
                | inl same ↦
                    let e : prev ≡ m = ground arith in
                    let h : home ≡ b =
                      sym (p.home)
                      ∙ ap (λ z. slot_of t.bucket_count (entry_at t.pool z).key) e
                      ∙ a.home in
                    absurd (ground arith)
                | inr g ↦ g
              ] in
              rw f (ground (arith, at))
        ],
      )

  old-IsBucket :
      (b : ℕ) → b < t.bucket_count → (home == b) ≡ false → IsBucket erased b (get_or chains b [])
  old-IsBucket b h ne =
      let u = v.bucket b h in
      let ks = get_or chains b [] in
      let agree : Agree t.pool erased.pool ks =
        All-map {P = IsMember t b}
          {Q = λ m.
            ((entry_at erased.pool m).next_idx ≡ (entry_at t.pool m).next_idx)
            × ((entry_at erased.pool m).key ≡ (entry_at t.pool m).key)}
          (λ m a. (same_link m ∙ (other-member b m a ne).1, same_key m)) ks u.members in
      let start : get_or erased.buckets b 0 ≡ get_or t.buckets b 0 = ground (
        arith,
        get_or-set t.buckets home b (entry_at t.pool i).next_idx 0
            (omega (arith, v.buckets_len, home_in)),
      ) in
      record {
        linked =
            rw start (IsChain-Agree t.pool erased.pool (get_or t.buckets b 0) ks agree u.linked);
        members = All-map (λ m a. kept-IsMember b m a ((other-member b m a ne).0)) ks u.members;
        keys = UniqueKeys-same t.pool erased.pool ks same_key u.keys;
      }

  pub chain-if :
      (b : ℕ)
      → get_or chains' b [] ≡ (if home == b then without t.pool key js else get_or chains b [])
  chain-if b =
      get_or-set chains home b (without t.pool key js) [] (omega (arith, v.chains_len, home_in))

  pub erased-IsTable : IsTable erased chains'
  erased-IsTable = record {
    buckets_len = elim (Bool-cases first) [
      | inl f ↦ rw f (length-set t.buckets home (entry_at t.pool i).next_idx ∙ v.buckets_len)
      | inr f ↦ rw f v.buckets_len
    ];
    chains_len = length-set chains home (without t.pool key js) ∙ v.chains_len;
    some_bucket = v.some_bucket;
    pool_len = length-set linked i (record (entry_at linked i) { sub_list = [] }) ∙ linked_len;
    stack_len = length-set t.free_stack t.free_len i ∙ v.stack_len;
    small = v.small;
    counts = omega (arith, v.counts, v.small, free_room);
    total = omega (
      arith,
      v.total,
      v.counts,
      v.small,
      free_room,
      length-without t.pool key kv_invalid_idx prev i js scanned,
      total_length-set chains home (without t.pool key js) (omega (arith, v.chains_len, home_in)),
    );
    bucket = λ b h. elim (Bool-cases (home == b)) [
      | inl same ↦
          let e : home ≡ b = ground arith in
          rw (chain-if b, same)
            (subst (λ z. IsBucket erased z (without t.pool key js)) e new-IsBucket)
      | inr other ↦ rw (chain-if b, other) (old-IsBucket b h other)
    ];
    stack_in = λ k h. ground (arith, stack_at k, v.stack_in k, i_in);
    stack_distinct = λ j k h h'.
        ground (arith, stack_at j, stack_at k, v.stack_distinct j k h, i-IsMember.taken j);
  }
