-- ===== src/Nodes/Swap.antt =====
-- src/core/nos_node_mgr.c, `node_reload_component` when it succeeds: the new component takes over.
use codex_nos.Base.{
  ℕ, ◌≡◌, refl, ap, sym, ◌∙◌, ◌≢◌, inl, inr, Bool, true, false, Option, some, List, [], ◌∷◌, ◌&&◌,
  ◌||◌, leb, ◌==◌, Bool-cases, Option-cases, arith,
}
use codex_nos.Services.{
  Registry, ServiceEntry, bound, entry_at, find_service, find_service_entry, register_provider_bind,
}
use codex_nos.Services.Lookup.{IsRegistry, entry_of_none}
use codex_nos.Services.Changes.{RegisterSpec, register_provider_bind_correct}
use codex_nos.Nodes.{ServiceDef, NodeDef, provides, lists_service}
use codex_nos.Nodes.Changes.{register_providers}

-- The id is served by component `d` on thread `t` of this node.
abbrev pub ServedBy : Registry → ℕ → ℕ → Option ℕ → Type 0
ServedBy r sid d t =
    (e : ServiceEntry) × (find_service_entry r sid ≡ some e)
    × (e.local_provider ≡ some d)
    × (e.local_thread ≡ t)
    × (e.is_remote ≡ false)

-- The id has an entry.
abbrev pub HasEntry : Registry → ℕ → Type 0
HasEntry r sid = (e : ServiceEntry) × (find_service_entry r sid ≡ some e)

module _ (def : NodeDef) (d : ℕ) (t : Option ℕ) where
  -- What a registration of id `id` does to the lookup of `sid`.
  record Bound (r : Registry) (id sid : ℕ) (r' : Registry) : Type 0 where
    pub valid : IsRegistry r'
    pub other : id ≢ sid → find_service_entry r' sid ≡ find_service_entry r sid
    same : id ≡ sid → HasEntry r sid → ServedBy r' sid d t

  bind_one :
      (r : Registry) (id sid : ℕ)
      → IsRegistry r
      → Bound r id sid (register_provider_bind r id (some d) t).1
  bind_one r id sid v = elim (Option-cases (find_service r id)) [
    | inr (i, e) ↦
        let s = rw (RegisterSpec, e) at (register_provider_bind_correct r v id (some d) t) in
        record {
          valid = s.1.0;
          other = λ ne. s.1.2 sid (λ q. ne (sym q));
          same = λ q h. (
            bound id (some d) t (entry_at r i),
            ap (find_service_entry (register_provider_bind r id (some d) t).1) (sym q) ∙ s.1.1,
            refl,
            refl,
            refl,
          );
        }
    | inl e ↦
        let unbound : (q : id ≡ sid) → HasEntry r sid → ⊥ =
          λ q h. absurd (cc (entry_of_none r id e, ap (find_service_entry r) q, h.1)) in
        elim (Bool-cases (leb 64 r.count)) [
          | inl f ↦
              let full =
                rw (RegisterSpec, e, f) at (register_provider_bind_correct r v id (some d) t) in
              rw full (record { valid = v; other = λ ne. refl; same = λ q h. absurd (unbound q h) })
          | inr f ↦
              let s =
                rw (RegisterSpec, e, f) at (register_provider_bind_correct r v id (some d) t) in
              record {
                valid = s.1.0;
                other = λ ne. s.1.2 sid (λ q. ne (sym q));
                same = λ q h. absurd (unbound q h);
              }
        ]
  ]

  -- What the registrations of a list of services do to the lookup of `sid`.
  pub record AllBound (id : ℕ) (svcs : List ServiceDef) (r : Registry) (sid : ℕ) (r' : Registry)
      : Type 0 where
    pub valid : IsRegistry r'
    pub kept : ServedBy r sid d t → ServedBy r' sid d t
    pub other :
        lists_service def id sid svcs ≡ false → find_service_entry r' sid ≡ find_service_entry r sid
    pub taken : lists_service def id sid svcs ≡ true → HasEntry r sid → ServedBy r' sid d t

  and_false_or : (x l : Bool) → (x && false || l) ≡ l
  and_false_or true l = refl
  and_false_or false l = refl

  ServedBy-HasEntry : (r : Registry) (sid : ℕ) → ServedBy r sid d t → HasEntry r sid
  ServedBy-HasEntry r sid (e, f, p, th, l) = (e, f)

  same_served :
      (r r' : Registry) (sid : ℕ)
      → find_service_entry r' sid ≡ find_service_entry r sid
      → ServedBy r sid d t
      → ServedBy r' sid d t
  same_served r r' sid q (e, f, p, th, l) = (e, q ∙ f, p, th, l)

  pub register_providers_lem :
      (id : ℕ) (svcs : List ServiceDef) (r : Registry) (sid : ℕ)
      → IsRegistry r
      → AllBound id svcs r sid (register_providers def id d t svcs r)
  unfolding register_providers
  register_providers_lem id [] r sid v = record {
    valid = v;
    kept = λ s. s;
    other = λ q. refl;
    taken = λ q h. absurd (cc);
  }
  register_providers_lem id (svc ∷ svcs) r sid v = elim (Bool-cases (provides def id svc)) [
    | inr e ↦
        let a = register_providers_lem id svcs r sid v in
        let same = and_false_or (svc.service_id == sid) (lists_service def id sid svcs) in
        rw (register_providers, e)
          (record {
            valid = a.valid;
            kept = a.kept;
            other = λ q. a.other (sym same ∙ (rw e at q));
            taken = λ q h. a.taken (sym same ∙ (rw e at q)) h;
          })
    | inl e ↦
        let r1 = (register_provider_bind r svc.service_id (some d) t).1 in
        let b = bind_one r svc.service_id sid v in
        let a = register_providers_lem id svcs r1 sid b.valid in
        elim (Bool-cases (svc.service_id == sid)) [
          | inl x ↦
              let same : svc.service_id ≡ sid = ground (arith, x) in
              rw (register_providers, e)
                (record {
                  valid = a.valid;
                  kept = λ s. a.kept (b.same same (ServedBy-HasEntry r sid s));
                  other = λ q. absurd (cc (rw (x, e) at q));
                  taken = λ q h. a.kept (b.same same h);
                })
          | inr x ↦
              let ne : svc.service_id ≢ sid = λ q. ground (arith, x, q) in
              rw (register_providers, e)
                (record {
                  valid = a.valid;
                  kept = λ s. a.kept (same_served r r1 sid (b.other ne) s);
                  other = λ q. a.other (rw x at q) ∙ b.other ne;
                  taken = λ q h. a.taken (rw x at q) (h.0, b.other ne ∙ h.1);
                })
        ]
  ]
