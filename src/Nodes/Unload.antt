-- ===== src/Nodes/Unload.antt =====
-- src/core/nos_node_mgr.c, `node_unload_component`: what is left of the component.
use mathlib.Core.Path.{subst}
use mathlib.Core.List.{append_assoc, append-nil}
use codex_nos.Base.{
  ℕ, ◌<◌, ◌≡◌, refl, ap, sym, ◌∙◌, inl, inr, Bool, true, false, Option, none, some, List, [], ◌∷◌,
  ◌++◌, ◌&&◌, ◌||◌, ok, err, get_or, get_elem?, set, length, get_or-set_self, ◌==◌, CString,
  if◌then◌else◌, Bool-cases, Option-cases, arith,
}
use codex_nos.Services.{
  Registry, ServiceEntry, find_service, find_service_entry, unregister_provider,
}
use codex_nos.Services.Lookup.{IsRegistry, entry_of_none}
use codex_nos.Services.Changes.{UnregisterSpec, unregister_correct}
use codex_nos.Services.Route.{Component, null_component, World, loaded_at, st_stopped}
use codex_nos.Nodes.{
  is_stopped, free_component, ServiceDef, NodeDef, Node, Effect, stopped, freed, closed, comp_at,
  provides, lists_service, unregister_on, detach, mark_stopped, wants_stop, call_stop,
  stop_component, destroy_component, loaded_by_name,
}
use codex_nos.Nodes.Intact.{call_stop-same}
use codex_nos.Nodes.Changes.{
  set_loaded, remove_at, set_registry, unregister_providers, unload_at, unload,
}

-- Of the world only the threads, the pool and the timers may differ.
pub record Kept (n n' : Node) : Type 0 where
  pub loaded : n'.world.loaded_info ≡ n.world.loaded_info
  pub registry : n'.world.registry ≡ n.world.registry
  pub comps : n'.world.components ≡ n.world.components
  pub effects : n'.effects ≡ n.effects

pub Kept-refl : (n : Node) → Kept n n
Kept-refl n = record { loaded = refl; registry = refl; comps = refl; effects = refl }

pub unregister_on-Kept : (t : Option ℕ) (c : ℕ) (n : Node) → Kept n (unregister_on t c n).1
unfolding unregister_on
unregister_on-Kept none c n = Kept-refl n
unregister_on-Kept (some t) c n = elim (Option-cases (get_elem? n.world.threads t)) [
  | inl z ↦ rw (unregister_on, z) (Kept-refl n)
  | inr (th, z) ↦
      rw (unregister_on, z)
        (record { loaded = refl; registry = refl; comps = refl; effects = refl })
]

-- What a call of `stop` adds to the effects.
abbrev pub stop_effects : Bool → ℕ → List Effect
stop_effects wanted c = if wanted then stopped c ∷ [] else []

call_stop-effects :
    (wanted : Bool) (c : ℕ) (n : Node)
    → (call_stop wanted c n).effects ≡ n.effects ++ stop_effects wanted c
call_stop-effects true c n = refl
call_stop-effects false c n = sym (append-nil n.effects)

abbrev pub gone : Node → ℕ → Component
gone n c = record (comp_at n c) { status = st_stopped }

module _ (def : NodeDef) where
  detach-Kept : (t : Option ℕ) (c : ℕ) (n : Node) → Kept n (detach def t c n)
  unfolding detach
  detach-Kept none c n = Kept-refl n
  detach-Kept (some t) c n = elim (Option-cases (get_elem? n.world.threads t)) [
    | inl z ↦ rw (detach, z) (Kept-refl n)
    | inr (th, z) ↦
        rw (detach, z) (record { loaded = refl; registry = refl; comps = refl; effects = refl })
  ]

  -- After the services of component `id` are taken out, a lookup finds none of them, and the others
  -- as before.
  abbrev pub found_without : ℕ → List ServiceDef → Registry → ℕ → Option ServiceEntry
  found_without id svcs r sid =
      if lists_service def id sid svcs then none else find_service_entry r sid

  unregister_one :
      (r : Registry) (id sid : ℕ)
      → IsRegistry r
      → IsRegistry (unregister_provider r id).1
        × (find_service_entry (unregister_provider r id).1 sid
            ≡ (if id == sid then none else find_service_entry r sid))
  unregister_one r id sid v = elim (Option-cases (find_service r id)) [
    | inl e ↦
        let same : unregister_provider r id ≡ (err, r) =
          rw (UnregisterSpec, e) at (unregister_correct r v id) in
        rw same (
          v,
          elim (Bool-cases (id == sid)) [
            | inr d ↦ rw d refl
            | inl d ↦ rw d (ap (find_service_entry r) (ground (arith, d)) ∙ entry_of_none r id e)
          ],
        )
    | inr (i, e) ↦
        let s = rw (UnregisterSpec, e) at (unregister_correct r v id) in
        (
          s.1.0,
          elim (Bool-cases (id == sid)) [
            | inl d ↦
                let same : id ≡ sid = ground (arith, d) in
                rw d (ap (find_service_entry (unregister_provider r id).1) (sym same) ∙ s.1.1)
            | inr d ↦ rw d (s.1.2 sid (λ q. ground (arith, d, q)))
          ],
        )
  ]

  or_skip :
      (x l : Bool) (f : Option ServiceEntry)
      → (if l then none else f) ≡ (if x && false || l then none else f)
  or_skip true l f = refl
  or_skip false l f = refl

  or_take :
      (x l : Bool) (f g : Option ServiceEntry)
      → g ≡ (if x then none else f)
      → (if l then none else g) ≡ (if x && true || l then none else f)
  or_take true true f g e = refl
  or_take true false f g e = e
  or_take false true f g e = refl
  or_take false false f g e = e

  unregister_providers_lem :
      (id : ℕ) (svcs : List ServiceDef) (r : Registry) (sid : ℕ)
      → IsRegistry r
      → IsRegistry (unregister_providers def id svcs r)
        × (find_service_entry (unregister_providers def id svcs r) sid
            ≡ found_without id svcs r sid)
  unfolding unregister_providers
  unregister_providers_lem id [] r sid v = (v, refl)
  unregister_providers_lem id (svc ∷ svcs) r sid v = elim (Bool-cases (provides def id svc)) [
    | inr e ↦
        let (a, b) = unregister_providers_lem id svcs r sid v in
        rw (unregister_providers, e)
          (
            a,
            b
                ∙ or_skip (svc.service_id == sid) (lists_service def id sid svcs)
                    (find_service_entry r sid),
          )
    | inl e ↦
        let r1 = (unregister_provider r svc.service_id).1 in
        let (v1, f) = unregister_one r svc.service_id sid v in
        let (a, b) = unregister_providers_lem id svcs r1 sid v1 in
        rw (unregister_providers, e)
          (
            a,
            b
                ∙ or_take (svc.service_id == sid) (lists_service def id sid svcs)
                    (find_service_entry r sid) (find_service_entry r1 sid) f,
          )
  ]

  -- A component that is stopped, before it is freed.
  pub record Halted (c : ℕ) (n n' : Node) : Type 0 where
    pub comps : n'.world.components ≡ set n.world.components c (gone n c)
    pub loaded : n'.world.loaded_info ≡ n.world.loaded_info
    pub registry : n'.world.registry ≡ n.world.registry
    pub effects : n'.effects ≡ n.effects ++ stop_effects (wants_stop (comp_at n c)) c

  pub stop_component-Halted :
      (t : Option ℕ) (c : ℕ) (n : Node) → Halted c n (stop_component def t c n)
  unfolding stop_component
  stop_component-Halted t c n =
      let n1 = mark_stopped c n in
      let n2 = detach def t c n1 in
      let k = detach-Kept t c n1 in
      let (w, z) = call_stop-same (wants_stop (comp_at n c)) c n2 in
      record {
        comps = ap (λ (z : World). z.components) w ∙ k.comps;
        loaded = ap (λ (z : World). z.loaded_info) w ∙ k.loaded;
        registry = ap (λ (z : World). z.registry) w ∙ k.registry;
        effects =
            call_stop-effects (wants_stop (comp_at n c)) c n2
            ∙ ap (λ l. l ++ stop_effects (wants_stop (comp_at n c)) c) k.effects;
      }

  -- A component that is stopped is destroyed without another call of `stop`.
  destroy_stopped :
      (c handle : ℕ) (n : Node)
      → is_stopped (comp_at n c).status ≡ true
      → destroy_component c handle n ≡ free_component c handle n
  unfolding destroy_component
  destroy_stopped c handle n e = rw (destroy_component, e) refl

  -- What an unload of component `c`, of entry `i`, leaves.
  abbrev pub Unloaded : ℕ → ℕ → Node → Node → Type 0
  Unloaded i c n n' =
      (n'.world.loaded_info ≡ remove_at i n.world.loaded_info)
      × IsRegistry n'.world.registry
      × ((sid : ℕ)
          → find_service_entry n'.world.registry sid
            ≡ found_without (comp_at n c).id def.services n.world.registry sid)
      × ((comp_at n' c).status ≡ st_stopped)
      × (n'.effects
          ≡ n.effects
            ++ (stop_effects (wants_stop (comp_at n c)) c
                ++ (freed c ∷ closed (loaded_at n.world i).handle ∷ [])))

  unload_at-Unloaded :
      (i c : ℕ) (n : Node)
      → c < length n.world.components
      → IsRegistry n.world.registry
      → Unloaded i c n (unload_at def i (loaded_at n.world i) c n)
  unfolding unload_at
  unload_at-Unloaded i c n inside v =
      let info = loaded_at n.world i in
      let n1 = (unregister_on info.owner_thread c n).1 in
      let k = unregister_on-Kept info.owner_thread c n in
      let same : comp_at n1 c ≡ comp_at n c = ap (λ l. get_or l c null_component) k.comps in
      let v1 = subst IsRegistry (sym k.registry) v in
      let n2 =
        set_registry (unregister_providers def (comp_at n1 c).id def.services n1.world.registry)
          n1 in
      let n3 = stop_component def info.owner_thread c n2 in
      let h = stop_component-Halted info.owner_thread c n2 in
      let status : (comp_at n3 c).status ≡ st_stopped =
        ap (λ l. (get_or l c null_component).status) h.comps
        ∙ ap (λ (z : Component). z.status)
            (get_or-set_self n1.world.components c (gone n2 c) null_component
              (omega (arith, ap (length {A = Component}) k.comps))) in
      let effects : n3.effects ≡ n.effects ++ stop_effects (wants_stop (comp_at n c)) c =
        h.effects
        ∙ ap (λ l. l ++ stop_effects (wants_stop (comp_at n1 c)) c) k.effects
        ∙ ap (λ w. n.effects ++ stop_effects (wants_stop w) c) same in
      subst (λ m. Unloaded i c n (set_loaded (remove_at i m.world.loaded_info) m))
        (sym (destroy_stopped c info.handle n3 (ap is_stopped status)))
        (
          ap (remove_at i) (h.loaded ∙ k.loaded),
          subst IsRegistry (sym h.registry)
              (unregister_providers_lem (comp_at n1 c).id def.services n1.world.registry 0 v1).0,
          λ sid.
              ap (λ r. find_service_entry r sid) h.registry
              ∙ (unregister_providers_lem (comp_at n1 c).id def.services n1.world.registry sid v1).1
              ∙ ap (λ r. found_without (comp_at n1 c).id def.services r sid) k.registry
              ∙ ap (λ (w : Component). found_without w.id def.services n.world.registry sid) same,
          status,
          ap (λ l. (l ++ freed c ∷ []) ++ closed info.handle ∷ []) effects ∙ simp (append_assoc),
        )

  -- With a valid registry, an unload of a component that is loaded succeeds, closes the gap in the
  -- table, and takes out the services of this node that the manifest gives the component and no
  -- others; the component is stopped, by one call if it was not stopped before, then freed, and its
  -- library closed.
  pub unload_correct :
      (name : CString) (n : Node) (i c : ℕ)
      → loaded_by_name n name ≡ some i
      → (loaded_at n.world i).comp ≡ some c
      → c < length n.world.components
      → IsRegistry n.world.registry
      → ((unload def name n).0 ≡ ok) × Unloaded i c n (unload def name n).1
  unfolding unload
  unload_correct name n i c e x inside v =
      rw (unload, e, x) (refl, unload_at-Unloaded i c n inside v)
