-- ===== src/Stats/Register.antt =====
-- Registering statistics: a pair of names that fit is registered once.
use codex_nos.Base.{
  ℕ, ◌+◌, ◌≤◌, ◌<◌, ◌≡◌, ◌⊎◌, refl, sym, inl, inr, Bool, true, false, ◌&&◌, List, [], ◌∷◌, ◌++◌,
  Status, ok, err_busy, length, length-append, get_or, get_or-append, get_or-append_length,
  find_index, find_index-some, find_index-none, leb, ltb, if◌then◌else◌, CString, str_eq_self,
  strncpy_short, Bool-cases, Option-cases, arith,
}
use codex_nos.Stats.{StatsItem, Source, null_item, named, cut_item, register_item}

abbrev pub item_at : List StatsItem → ℕ → StatsItem
item_at items i = get_or items i null_item

-- No two items have the same names, and the items fit the array.
pub record IsStats (items : List StatsItem) : Type 0 where
  pub fits : length items ≤ 128
  pub unique :
      (i j : ℕ)
      → i < length items
      → j < length items
      → (item_at items i).module_name ≡ (item_at items j).module_name
      → (item_at items i).name ≡ (item_at items j).name
      → i ≡ j

-- The result of registering: an item of the names is there and nothing changes, or the registry
-- is full and nothing changes, or no item of the names was there and the new one is last.
abbrev pub RegisterSpec :
    List StatsItem → CString → CString → Source → Status × List StatsItem → Type 0
RegisterSpec items m n source res =
    ((i : ℕ) × (i < length items) × (named m n (item_at items i) ≡ true) × (res ≡ (ok, items)))
    ⊎ (((i : ℕ) → i < length items → named m n (item_at items i) ≡ false)
        × (res ≡ (
            if leb 128 (length items)
            then (err_busy, items)
            else (ok, items ++ cut_item m n source ∷ []))))

both : (a b : Bool) → (a && b) ≡ true → (a ≡ true) × (b ≡ true)
both true true e = (refl, refl)
both true false e = cc
both false b e = cc

named_iff :
    (m n : CString) (item : StatsItem)
    → item.module_name ≡ m
    → item.name ≡ n
    → named m n item ≡ true
named_iff m n item a b = rw (a, b, str_eq_self m, str_eq_self n) refl

module _ (items : List StatsItem) (h : IsStats items) (m n : CString) (source : Source) where
  register_item-cases : RegisterSpec items m n source (register_item items m n source)
  unfolding register_item
  register_item-cases =
      elim (Option-cases (find_index (λ i. named m n (item_at items i)) (length items))) [
        | inr (i, e) ↦
            let (a, b) = find_index-some (λ i. named m n (item_at items i)) (length items) i e in
            inl (i, a, b, rw (register_item, e) refl)
        | inl e ↦ inr (
          λ i p. find_index-none (λ i. named m n (item_at items i)) (length items) i e p,
          rw (register_item, e) refl,
        )
      ]

  appended :
      (new : StatsItem)
      → length items < 128
      → ((i : ℕ) → i < length items → named new.module_name new.name (item_at items i) ≡ false)
      → IsStats (items ++ new ∷ [])
  appended new room out =
      let len : length (items ++ new ∷ []) ≡ length items + 1 = length-append items (new ∷ []) in
      let old = λ (i : ℕ) (p : i < length items). get_or-append items (new ∷ []) i null_item p in
      let last = get_or-append_length items [] new null_item in
      let distinct : (i : ℕ)
          → i < length items
          → (item_at items i).module_name ≡ new.module_name
          → (item_at items i).name ≡ new.name
          → ⊥ =
        λ i p a b.
          absurd
            (ground (arith, out i p, named_iff new.module_name new.name (item_at items i) a b)) in
      record {
        fits = omega (arith, len, room);
        unique = λ i j p q a b. elim (Bool-cases (ltb i (length items))) [
          | inl x ↦ elim (Bool-cases (ltb j (length items))) [
            | inl y ↦
                let p' : i < length items = ground (arith, x) in
                let q' : j < length items = ground (arith, y) in
                h.unique i j p' q' (rw (old i p', old j q') at a) (rw (old i p', old j q') at b)
            | inr y ↦
                let p' : i < length items = ground (arith, x) in
                let e : length items ≡ j = ground (arith, y, q, len) in
                absurd
                  (distinct i p' (rw (old i p', ← e, last) at a) (rw (old i p', ← e, last) at b))
          ]
          | inr x ↦ elim (Bool-cases (ltb j (length items))) [
            | inl y ↦
                let q' : j < length items = ground (arith, y) in
                let e : length items ≡ i = ground (arith, x, p, len) in
                absurd (
                  distinct j q' (sym (rw (old j q', ← e, last) at a))
                    (sym (rw (old j q', ← e, last) at b)))
            | inr y ↦ ground (arith, x, y, p, q, len)
          ]
        ];
      }

  -- In a valid registry, registering names of at most 31 bytes changes nothing when an item of the
  -- names is there, is busy exactly when the names are new and 128 items are there, changing
  -- nothing, and else adds the item at the end; no two items have the same names afterwards.
  pub register_item_correct :
      length m ≤ 31
      → length n ≤ 31
      → RegisterSpec items m n source (register_item items m n source)
        × IsStats (register_item items m n source).1
  register_item_correct sm sn = (
    register_item-cases,
    elim register_item-cases [
      | inl (i, p, e, v) ↦ rw v h
      | inr (out, v) ↦ elim (Bool-cases (leb 128 (length items))) [
        | inl full ↦ rw (v, full) h
        | inr room ↦
            rw (v, room)
              (appended (cut_item m n source) (ground (arith, room))
                (λ i p. rw (strncpy_short 31 m sm, strncpy_short 31 n sn) (out i p)))
      ]
    ],
  )
