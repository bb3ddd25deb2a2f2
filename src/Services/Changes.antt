-- ===== src/Services/Changes.antt =====
-- Registering and unregistering, on the registry as a map.
use codex_nos.Base.{
  ℕ, ◌+◌, ◌-◌, ◌<◌, ◌≡◌, ◌≢◌, refl, sym, ap, ◌∙◌, inl, inr, true, false, Option, none, some, Status,
  ok, err, length-set, get_or-set, set, leb, ◌==◌, if◌then◌else◌, Bool-cases, Option-cases, arith,
  CString,
}
use codex_nos.Services.{
  ServiceEntry, Registry, null_entry, entry_at, find_service, find_service_entry, register,
  register_provider_bind, register_remote, unregister_provider, bound, routed,
}
use codex_nos.Services.Lookup.{
  IsRegistry, id_at, find_some, find_none, find_absent, lookup_at, same_lookups, entry_of_none,
}

-- `r'` is a valid registry, finds for every id but `id` what `r` finds, and `found` for `id`.
abbrev pub Rebound : Registry → ℕ → Option ServiceEntry → Registry → Type 0
Rebound r id found r' =
    IsRegistry r'
    × (find_service_entry r' id ≡ found)
    × ((id' : ℕ) → id' ≢ id → find_service_entry r' id' ≡ find_service_entry r id')

-- A registration under `f`, of an id with no entry in a full registry, fails and changes nothing;
-- else it writes the id's entry, or a new one made from the slot at the end.
abbrev pub RegisterSpec : Registry → ℕ → (ServiceEntry → ServiceEntry) → Status × Registry → Type 0
RegisterSpec r id f res = elim (find_service r id) [
  | some i ↦ (res.0 ≡ ok) × Rebound r id (some (f (entry_at r i))) res.1
  | none ↦
      if leb 64 r.count
      then res ≡ (err, r)
      else (res.0 ≡ ok) × Rebound r id (some (f (entry_at r r.count))) res.1
]

-- The id's entry, if it has one, is removed.
abbrev pub UnregisterSpec : Registry → ℕ → Status × Registry → Type 0
UnregisterSpec r id res = elim (find_service r id) [
  | none ↦ res ≡ (err, r)
  | some i ↦ (res.0 ≡ ok) × Rebound r id none res.1
]

abbrev wrote : Registry → ℕ → ServiceEntry → ℕ → Registry
wrote r k w n = record { entries = set r.entries k w; count = n }

module _ (r : Registry) (h : IsRegistry r) where
  at_wrote :
      (k n : ℕ) (w : ServiceEntry) (i : ℕ)
      → k < 64
      → entry_at (wrote r k w n) i ≡ (if k == i then w else entry_at r i)
  at_wrote k n w i p = get_or-set r.entries k i w null_entry (omega (arith, h.size))

  id_wrote :
      (k n : ℕ) (w : ServiceEntry) (i : ℕ)
      → k < 64
      → id_at (wrote r k w n) i ≡ (if k == i then w.service_id else id_at r i)
  id_wrote k n w i p = elim (Bool-cases (k == i)) [
    | inl e ↦
        let at : entry_at (wrote r k w n) i ≡ w = at_wrote k n w i p ∙ rw e refl in
        rw e (ap (λ (x : ServiceEntry). x.service_id) at)
    | inr e ↦
        let at : entry_at (wrote r k w n) i ≡ entry_at r i = at_wrote k n w i p ∙ rw e refl in
        rw e (ap (λ (x : ServiceEntry). x.service_id) at)
  ]

  kept_entry :
      (k n : ℕ) (w : ServiceEntry) (i : ℕ)
      → k < 64
      → k ≢ i
      → entry_at (wrote r k w n) i ≡ entry_at r i
  kept_entry k n w i p ne =
      let e : (k == i) ≡ false = ground (arith, ne) in at_wrote k n w i p ∙ rw e refl

  new_entry : (k n : ℕ) (w : ServiceEntry) → k < 64 → entry_at (wrote r k w n) k ≡ w
  new_entry k n w p = let e : (k == k) ≡ true = ground (arith) in at_wrote k n w k p ∙ rw e refl

  -- The entry of an id is overwritten.
  overwrite :
      (id k : ℕ) (w : ServiceEntry)
      → find_service r id ≡ some k
      → w.service_id ≡ id
      → Rebound r id (some w) (wrote r k w r.count)
  overwrite id k w found wid =
      let (inside, kid) = find_some r id k found in
      let f = h.fits in
      let p : k < 64 = omega (arith, f, inside) in
      let ids = λ (i : ℕ). id_wrote k r.count w i p in
      let ok' : IsRegistry (wrote r k w r.count) = record {
        size = length-set r.entries k w ∙ h.size;
        fits = f;
        unique = λ i j a b e. ground (
          arith,
          ids i,
          ids j,
          h.unique i j a b,
          kid,
          wid,
          e,
          h.unique k i inside a,
          h.unique k j inside b,
          h.unique i k a inside,
          h.unique j k b inside,
        );
      } in
      (
        ok',
        lookup_at (wrote r k w r.count) id k ok' inside (ground (arith, ids k, wid))
            ∙ ap some (new_entry k r.count w p),
        λ id' ne.
            same_lookups r (wrote r k w r.count) id' ok'
              (λ i a e. (
                i,
                a,
                kept_entry k r.count w i p (λ q. absurd (ne (sym e ∙ ap (id_at r) (sym q) ∙ kid))),
              ))
              (λ j a e. (
                j,
                a,
                sym (kept_entry k r.count w j p (λ q. ground (arith, ids j, q, e, wid, ne))),
              )),
      )

  -- An id with no entry is added at the end.
  added :
      (id : ℕ) (w : ServiceEntry)
      → find_service r id ≡ none
      → r.count < 64
      → w.service_id ≡ id
      → Rebound r id (some w) (wrote r r.count w (r.count + 1))
  added id w missing p wid =
      let k = r.count in
      let n = r.count + 1 in
      let ids = λ (i : ℕ). id_wrote k n w i p in
      let out = λ (i : ℕ). find_none r id i missing in
      let ok' : IsRegistry (wrote r k w n) = record {
        size = length-set r.entries k w ∙ h.size;
        fits = omega arith;
        unique = λ i j a b e. ground (arith, ids i, ids j, h.unique i j, out i, out j, wid, e);
      } in
      (
        ok',
        lookup_at (wrote r k w n) id k ok' (omega arith) (ground (arith, ids k, wid))
            ∙ ap some (new_entry k n w p),
        λ id' ne.
            same_lookups r (wrote r k w n) id' ok'
              (λ i a e. (i, omega arith, kept_entry k n w i p (λ q. omega (arith, q, a))))
              (λ j a e.
                let other : k ≢ j = λ q. ground (arith, ids j, q, e, wid, ne) in
                (j, ground (arith, other, a), sym (kept_entry k n w j p other))),
      )

  -- An entry is overwritten by the last, and the last is cut off.
  removed :
      (id k : ℕ)
      → find_service r id ≡ some k
      → Rebound r id none (wrote r k (entry_at r (r.count - 1)) (r.count - 1))
  removed id k found =
      let (inside, kid) = find_some r id k found in
      let f = h.fits in
      let p : k < 64 = omega (arith, f, inside) in
      let last = r.count - 1 in
      let w = entry_at r last in
      let ids = λ (i : ℕ). id_wrote k last w i p in
      let u = h.unique in
      let ok' : IsRegistry (wrote r k w last) = record {
        size = length-set r.entries k w ∙ h.size;
        fits = omega (arith, f);
        unique = λ i j a b e. ground (arith, ids i, ids j, u i j, u last j, u i last, e, inside);
      } in
      (
        ok',
        entry_of_none (wrote r k w last) id (
            find_absent (wrote r k w last) id
              (λ i a e. ground (arith, ids i, u last k, u i k, kid, e, inside, a))),
        λ id' ne.
            same_lookups r (wrote r k w last) id' ok'
              (λ i a e. elim (Bool-cases (i == last)) [
                | inl q ↦
                    let same : i ≡ last = ground (arith, q) in
                    let moved : k ≢ last =
                      λ z. absurd (ne (sym e ∙ ap (id_at r) (same ∙ sym z) ∙ kid)) in
                    (
                      k,
                      ground (arith, moved, inside),
                      new_entry k last w p ∙ ap (entry_at r) (sym same),
                    )
                | inr q ↦ (
                  i,
                  ground (arith, q, a),
                  kept_entry k last w i p (λ z. absurd (ne (sym e ∙ ap (id_at r) (sym z) ∙ kid))),
                )
              ])
              (λ j a e. elim (Bool-cases (k == j)) [
                | inl q ↦
                    let same : k ≡ j = ground (arith, q) in
                    (
                      last,
                      omega (arith, inside),
                      sym (ap (entry_at (wrote r k w last)) (sym same) ∙ new_entry k last w p),
                    )
                | inr q ↦
                    (j, omega (arith, a), sym (kept_entry k last w j p (λ z. ground (arith, q, z))))
              ]),
      )

  register_correct :
      (id : ℕ) (f : ServiceEntry → ServiceEntry)
      → ((e : ServiceEntry) → (f e).service_id ≡ id)
      → RegisterSpec r id f (register r id f)
  unfolding register
  register_correct id f hf = elim (Option-cases (find_service r id)) [
    | inr (i, e) ↦
        rw (RegisterSpec, e)
          (rw (register, e) (refl, overwrite id i (f (entry_at r i)) e (hf (entry_at r i))))
    | inl e ↦ elim (Bool-cases (leb 64 r.count)) [
      | inl q ↦ rw (RegisterSpec, e, q) (rw (register, e, q) refl)
      | inr q ↦
          rw (RegisterSpec, e, q)
            (rw (register, e, q)
              (
                refl,
                added id (f (entry_at r r.count)) e (ground (arith, q)) (hf (entry_at r r.count)),
              ))
    ]
  ]

  -- In a valid registry, binding a provider to an id fails only for a new id in a full registry, and
  -- then changes nothing; else the id's entry names the provider and its thread, and is local, and
  -- no other id's entry changes.
  pub register_provider_bind_correct :
      (id : ℕ) (provider thread : Option ℕ)
      → RegisterSpec r id (bound id provider thread) (register_provider_bind r id provider thread)
  unfolding register_provider_bind
  register_provider_bind_correct id provider thread =
      register_correct id (bound id provider thread) (λ e. refl)

  -- In a valid registry, registering a remote route fails only for a new id in a full registry, and
  -- then changes nothing; else the id's entry names the node and the path, cut to their arrays, and
  -- is remote, and no other id's entry changes.
  pub register_remote_correct :
      (id : ℕ) (node : Option CString) (path : CString)
      → RegisterSpec r id (routed id node path) (register_remote r id node path)
  unfolding register_remote
  register_remote_correct id node path = register_correct id (routed id node path) (λ e. refl)

  -- In a valid registry, unregistering an id that has an entry removes it and no other id's; for an
  -- id without, it fails and changes nothing.
  pub unregister_correct : (id : ℕ) → UnregisterSpec r id (unregister_provider r id)
  unfolding unregister_provider
  unregister_correct id = elim (Option-cases (find_service r id)) [
    | inl e ↦ rw (UnregisterSpec, e) (rw (unregister_provider, e) refl)
    | inr (i, e) ↦ rw (UnregisterSpec, e) (rw (unregister_provider, e) (refl, removed id i e))
  ]
