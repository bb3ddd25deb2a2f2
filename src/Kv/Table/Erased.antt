-- ===== src/Kv/Table/Erased.antt =====
-- What the keys are bound to after an erasure.
use codex_nos.Base.{
  ℕ, ◌≡◌, ◌∙◌, sym, refl, ap, true, false, none, some, List, [], ◌∷◌, get_or, str_eq, eq_of_str_eq,
  ◌==◌, if◌then◌else◌, arith, Bool-cases, inl, inr,
}
use codex_nos.Kv.Table.{Table, entry_at, kv_invalid_idx, bucket_of, find_entry}
use codex_nos.Kv.Table.Chains.{scan, KeyNotIn, scan_of_KeyNotIn}
use codex_nos.Kv.Table.Unlink.{without}
use codex_nos.Kv.Table.Valid.{IsTable, row_of, row_found, view, find_entry-eq-scan, slot_of-lt}
use codex_nos.Kv.Table.Erase.{
  erased, chains', same_key, same_row, chain-if, i_key, erased-IsTable, without-KeyNotIn,
  KeyNotIn-same,
}

module _ (t : Table) (chains : List (List ℕ)) (v : IsTable t chains) (key : List ℕ) (prev i : ℕ)
    (found : find_entry t key ≡ some (prev, i)) where
  abbrev t' : Table
  t' = erased t chains v key prev i found

  -- An entry with another key keeps its row.
  row-kept :
      (k' : List ℕ) (m : ℕ)
      → str_eq key k' ≡ false
      → str_eq (entry_at t.pool m).key k' ≡ true
      → row_of (entry_at t'.pool m) ≡ row_of (entry_at t.pool m)
  row-kept k' m ne hit = same_row t chains v key prev i found m (elim (Bool-cases (i == m)) [
    | inl same ↦
        let e : i ≡ m = ground arith in
        let kk : (entry_at t.pool m).key ≡ key =
          ap (λ z. (entry_at t.pool z).key) (sym e) ∙ i_key t chains v key prev i found in
        let bad : str_eq key k' ≡ true = rw kk at hit in absurd (ground arith)
    | inr f ↦ f
  ])

  scan-kept :
      (k' : List ℕ) (p q : ℕ) (ks : List ℕ)
      → str_eq key k' ≡ false
      → row_found t'.pool (scan t'.pool k' p ks) ≡ row_found t.pool (scan t.pool k' q ks)
  scan-kept k' p q [] ne = refl
  scan-kept k' p q (j ∷ ks) ne =
      let rest = scan-kept k' j j ks ne in
      let same = same_key t chains v key prev i found j in
      elim (Bool-cases (str_eq (entry_at t.pool j).key k')) [
        | inl hit ↦ rw (same, hit) (ap some (row-kept k' j ne hit))
        | inr miss ↦ rw (same, miss) rest
      ]

  scan-without :
      (k' : List ℕ) (p q : ℕ) (ks : List ℕ)
      → str_eq key k' ≡ false
      → row_found t'.pool (scan t'.pool k' p (without t.pool key ks))
        ≡ row_found t.pool (scan t.pool k' q ks)
  scan-without k' p q [] ne = refl
  scan-without k' p q (j ∷ ks) ne =
      let same = same_key t chains v key prev i found j in
      elim (Bool-cases (str_eq (entry_at t.pool j).key key)) [
        | inl gone ↦
            let e : (entry_at t.pool j).key ≡ key = eq_of_str_eq (entry_at t.pool j).key key gone in
            let miss : str_eq (entry_at t.pool j).key k' ≡ false = rw e ne in
            rw (gone, miss) (scan-kept k' p j ks ne)
        | inr stays ↦ elim (Bool-cases (str_eq (entry_at t.pool j).key k')) [
          | inl hit ↦ rw (stays, same, hit) (ap some (row-kept k' j ne hit))
          | inr miss ↦ rw (stays, same, miss) (scan-without k' j j ks ne)
        ]
      ]

  -- The key is bound to nothing, and no other binding changes.
  pub view-erased : (k' : List ℕ) → view t' k' ≡ (if str_eq key k' then none else view t k')
  unfolding view
  view-erased k' =
      let b = bucket_of t k' in
      let u = v.bucket b (slot_of-lt t.bucket_count k' v.some_bucket) in
      let js = get_or chains b [] in
      let cs = chains' t chains v key prev i found in
      rw
        (
          find_entry-eq-scan t' cs k' (erased-IsTable t chains v key prev i found),
          find_entry-eq-scan t chains k' v,
          chain-if t chains v key prev i found b,
        )
        (elim (Bool-cases (str_eq key k')) [
          | inl same ↦
              let e : key ≡ k' = eq_of_str_eq key k' same in
              let home : (bucket_of t key == b) ≡ true = rw e (ground arith) in
              let gone : KeyNotIn t'.pool k'
                  (without t.pool key (get_or chains (bucket_of t key) [])) =
                rw e (
                  KeyNotIn-same t.pool t'.pool k' (without t.pool k' js)
                    (same_key t chains v key prev i found)
                    (without-KeyNotIn t.pool k' js u.keys)) in
              let lost =
                scan_of_KeyNotIn t'.pool k' kv_invalid_idx
                  (without t.pool key (get_or chains (bucket_of t key) [])) gone in
              rw (same, home, lost) refl
          | inr ne ↦ elim (Bool-cases (bucket_of t key == b)) [
            | inl home ↦
                let e : bucket_of t key ≡ b = ground arith in
                rw (ne, home, e) (scan-without k' kv_invalid_idx kv_invalid_idx js ne)
            | inr away ↦ rw (ne, away) (scan-kept k' kv_invalid_idx kv_invalid_idx js ne)
          ]
        ])
