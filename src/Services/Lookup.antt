-- ===== src/Services/Lookup.antt =====
-- The service registry as a map from service ids to entries.
use codex_nos.Base.{
  ℕ, ◌≤◌, ◌<◌, ◌≡◌, ◌≢◌, refl, sym, ap, ◌∙◌, inl, inr, none, some, length, find_index-some,
  find_index-none, find_index_unique, find_index_absent, ◌==◌, Option-cases, arith,
}
use mathlib.Core.Path.{subst}
use codex_nos.Services.{ServiceEntry, Registry, entry_at, find_service, find_service_entry}

abbrev pub id_at : Registry → ℕ → ℕ
id_at r i = (entry_at r i).service_id

-- No id has two entries, and the entries fit the array.
pub record IsRegistry (r : Registry) : Type 0 where
  pub size : length r.entries ≡ 64
  pub fits : r.count ≤ 64
  pub unique : (i j : ℕ) → i < r.count → j < r.count → id_at r i ≡ id_at r j → i ≡ j

module _ (r : Registry) where
  pub find_some : (id i : ℕ) → find_service r id ≡ some i → (i < r.count) × (id_at r i ≡ id)
  unfolding find_service
  find_some id i e =
      let (a, b) = find_index-some (λ i. id_at r i == id) r.count i e in (a, ground (arith, b))

  pub find_none : (id i : ℕ) → find_service r id ≡ none → i < r.count → id_at r i ≢ id
  unfolding find_service
  find_none id i e h q =
      absurd (ground (arith, find_index-none (λ i. id_at r i == id) r.count i e h, q))

  pub find_at : (i : ℕ) → IsRegistry r → i < r.count → find_service r (id_at r i) ≡ some i
  unfolding find_service
  find_at i h inside =
      find_index_unique (λ j. id_at r j == id_at r i) r.count i inside (ground arith)
        (λ j p e. h.unique j i p inside (ground (arith, e)))

  pub find_absent : (id : ℕ) → ((i : ℕ) → i < r.count → id_at r i ≢ id) → find_service r id ≡ none
  unfolding find_service
  find_absent id out =
      find_index_absent (λ i. id_at r i == id) r.count (λ i h. ground (arith, out i h))

-- Two registries that find the same entries for an id.
pub entry_of_some :
    (r : Registry) (id i : ℕ)
    → find_service r id ≡ some i
    → find_service_entry r id ≡ some (entry_at r i)
unfolding find_service_entry
entry_of_some r id i e = rw (find_service_entry, e) refl

pub entry_of_none :
    (r : Registry) (id : ℕ) → find_service r id ≡ none → find_service_entry r id ≡ none
unfolding find_service_entry
entry_of_none r id e = rw (find_service_entry, e) refl

-- A lookup by what stands at an index, for a valid registry.
pub lookup_at :
    (r : Registry) (id i : ℕ)
    → IsRegistry r
    → i < r.count
    → id_at r i ≡ id
    → find_service_entry r id ≡ some (entry_at r i)
lookup_at r id i h p e =
    entry_of_some r id i (subst (λ z. find_service r z ≡ some i) e (find_at r i h p))

-- If each entry of `r` with another id than `id` is in `r'`, and back, they find the same for the
-- other ids.
pub same_lookups :
    (r r' : Registry) (id' : ℕ)
    → IsRegistry r'
    → ((i : ℕ)
        → i < r.count
        → id_at r i ≡ id'
        → (j : ℕ) × (j < r'.count) × (entry_at r' j ≡ entry_at r i))
    → ((j : ℕ)
        → j < r'.count
        → id_at r' j ≡ id'
        → (i : ℕ) × (i < r.count) × (entry_at r i ≡ entry_at r' j))
    → find_service_entry r' id' ≡ find_service_entry r id'
same_lookups r r' id' h there back = elim (Option-cases (find_service r id')) [
  | inl e ↦
      entry_of_none r' id' (
        find_absent r' id' (λ j p q.
          let (i, a, b) = back j p q in
          absurd (find_none r id' i e a (ap (λ (x : ServiceEntry). x.service_id) b ∙ q))))
      ∙ sym (entry_of_none r id' e)
  | inr (i, e) ↦
      let (a, b) = find_some r id' i e in
      let (j, c, d) = there i a b in
      lookup_at r' id' j h c (ap (λ (x : ServiceEntry). x.service_id) d ∙ b)
      ∙ ap some d
      ∙ sym (entry_of_some r id' i e)
]
