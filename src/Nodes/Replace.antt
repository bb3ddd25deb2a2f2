-- ===== src/Nodes/Replace.antt =====
-- src/core/nos_node_mgr.c, `node_reload_component` when it succeeds: the whole of it.
use mathlib.Core.Path.{subst}
use mathlib.Core.List.{append_assoc}
use codex_nos.Base.{
  ℕ, ◌≤◌, ◌<◌, ◌≡◌, refl, ap, sym, ◌∙◌, inl, inr, true, false, not, Option, none, some, [], ◌∷◌,
  ◌++◌, ◌&&◌, ok, get_or, get_elem?, set, length, get_or-set_self, CString, Bool-cases,
  Option-cases, arith,
}
use codex_nos.Services.{find_service_entry}
use codex_nos.Services.Lookup.{IsRegistry}
use codex_nos.Services.Route.{Component, null_component, loaded_at, st_stopped, is_ok}
use codex_nos.Nodes.{
  NodeDef, Node, freed, closed, comp_at, lists_service, register_on, unregister_on, wants_stop,
  stop_component, loaded_by_name,
}
use codex_nos.Nodes.Staging.{Platform, load_staged, fresh_comp}
use codex_nos.Nodes.Changes.{
  set_loaded, set_registry, register_providers, swap_in, replace_at, reload,
}
use codex_nos.Nodes.Intact.{load_staged-Intact}
use codex_nos.Nodes.Unload.{
  Kept, Kept-refl, unregister_on-Kept, stop_effects, gone, stop_component-Halted,
}
use codex_nos.Nodes.Swap.{ServedBy, HasEntry, register_providers_lem}

register_on-Kept : (t : Option ℕ) (c : ℕ) (n : Node) → Kept n (register_on t c n).1
unfolding register_on
register_on-Kept none c n = Kept-refl n
register_on-Kept (some t) c n = elim (Option-cases (get_elem? n.world.threads t)) [
  | inl z ↦ rw (register_on, z) (Kept-refl n)
  | inr (th, z) ↦
      rw (register_on, z) (record { loaded = refl; registry = refl; comps = refl; effects = refl })
]

-- A library that is staged leaves no effect.
load_staged-effects :
    (platform : Platform) (id : ℕ) (name lib : CString) (n : Node) {new : ℕ × ℕ}
    → (load_staged platform id name lib n).0 ≡ some new
    → (load_staged platform id name lib n).1.effects ≡ n.effects
unfolding load_staged
load_staged-effects platform id name lib n s = elim (Bool-cases (platform.readable lib)) [
  | inr e ↦ absurd (cc (rw (load_staged, e) at s))
  | inl e ↦ elim (Option-cases (platform.dlopen lib)) [
    | inl z ↦ absurd (cc (rw (load_staged, e, z) at s))
    | inr (handle, z) ↦ elim (Option-cases (platform.exports handle)) [
      | inl x ↦ absurd (cc (rw (load_staged, e, z, x) at s))
      | inr (export, x) ↦
          let (st, v) = export (fresh_comp id name) in
          elim (Bool-cases (is_ok st)) [
            | inr y ↦ absurd (cc (rw (load_staged, e, z, x, y) at s))
            | inl y ↦ elim (Bool-cases (v.init && not (is_ok (platform.init v)))) [
              | inl u ↦ absurd (cc (rw (load_staged, e, z, x, y, u) at s))
              | inr u ↦ rw (load_staged, e, z, x, y, u) refl
            ]
          ]
    ]
  ]
]

module _ (def : NodeDef) where
  -- Component `d` of library `handle` has taken the place of component `c` in entry `i`.
  abbrev pub Replaced : ℕ → ℕ → ℕ → ℕ → Node → Node → Type 0
  Replaced i c d handle n n' =
      let info = loaded_at n.world i in
      let id = (comp_at n c).id in
      (n'.world.loaded_info
        ≡ set n.world.loaded_info i (record info { comp = some d; handle = handle }))
      × IsRegistry n'.world.registry
      × ((sid : ℕ)
          → lists_service def id sid def.services ≡ true
          → HasEntry n.world.registry sid
          → ServedBy n'.world.registry sid d info.owner_thread)
      × ((sid : ℕ)
          → lists_service def id sid def.services ≡ false
          → find_service_entry n'.world.registry sid ≡ find_service_entry n.world.registry sid)
      × ((comp_at n' c).status ≡ st_stopped)
      × (n'.effects
          ≡ n.effects
            ++ (stop_effects (wants_stop (comp_at n c)) c ++ (freed c ∷ closed info.handle ∷ [])))

  -- The swap, from a node `m` that has the tables of `n`.
  swap_in-Replaced :
      (i c d handle : ℕ) (n m : Node)
      → c < length n.world.components
      → length n.world.components ≤ length m.world.components
      → IsRegistry n.world.registry
      → m.world.loaded_info ≡ n.world.loaded_info
      → m.world.registry ≡ n.world.registry
      → comp_at m c ≡ comp_at n c
      → m.effects ≡ n.effects
      → Replaced i c d handle n (swap_in def i (loaded_at n.world i) (comp_at n c).id c d handle m)
  unfolding swap_in
  swap_in-Replaced i c d handle n m inside more v loaded registry same effects =
      let info = loaded_at n.world i in
      let id = (comp_at n c).id in
      let t = info.owner_thread in
      let m1 =
        set_loaded (set m.world.loaded_info i (record info { comp = some d; handle = handle })) m in
      let m2 = set_registry (register_providers def id d t def.services m1.world.registry) m1 in
      let h = stop_component-Halted def t c m2 in
      let b = λ (sid : ℕ).
        register_providers_lem def d t id def.services m.world.registry sid
          (subst IsRegistry (sym registry) v) in
      let halted : (stop_component def t c m2).effects
          ≡ n.effects ++ stop_effects (wants_stop (comp_at n c)) c =
        h.effects
        ∙ ap (λ l. l ++ stop_effects (wants_stop (comp_at m c)) c) effects
        ∙ ap (λ w. n.effects ++ stop_effects (wants_stop w) c) same in
      (
        h.loaded ∙ ap (λ l. set l i (record info { comp = some d; handle = handle })) loaded,
        subst IsRegistry (sym h.registry) (b 0).valid,
        λ sid listed has.
            subst (λ r. ServedBy r sid d t) (sym h.registry)
              ((b sid).taken listed (subst (λ r. HasEntry r sid) (sym registry) has)),
        λ sid listed.
            ap (λ r. find_service_entry r sid) h.registry
            ∙ (b sid).other listed
            ∙ ap (λ r. find_service_entry r sid) registry,
        ap (λ l. (get_or l c null_component).status) h.comps
            ∙ ap (λ (z : Component). z.status)
                (get_or-set_self m.world.components c (gone m2 c) null_component (omega arith)),
        ap (λ l. (l ++ freed c ∷ []) ++ closed info.handle ∷ []) halted ∙ simp (append_assoc),
      )

  module _ (platform : Platform) where
    -- With a valid registry, a reload of a loaded component that succeeds gives its entry a new
    -- component, which on the same thread serves every service of this node that the manifest gives
    -- the old one and that has an entry, and no other lookup changes; the old component is stopped,
    -- by one call if it was not stopped before, then freed, and its library closed.
    pub reload_correct :
        (name : CString) (n : Node) (i c : ℕ)
        → loaded_by_name n name ≡ some i
        → (loaded_at n.world i).comp ≡ some c
        → c < length n.world.components
        → IsRegistry n.world.registry
        → (reload def platform name n).0 ≡ ok
        → (d : ℕ) × (handle : ℕ) × (length n.world.components ≤ d)
          × Replaced i c d handle n (reload def platform name n).1
    unfolding reload replace_at
    reload_correct name n i c e x inside v s =
        let info = loaded_at n.world i in
        let id = (comp_at n c).id in
        let (r, behind) = load_staged-Intact platform id name info.lib_name n in
        elim (Option-cases (load_staged platform id name info.lib_name n).0) [
          | inl y ↦ absurd (cc (rw (reload, e, x, y) at s))
          | inr ((d, handle), y) ↦
              let n1 = (load_staged platform id name info.lib_name n).1 in
              let n2 = (unregister_on info.owner_thread c n1).1 in
              let k1 = unregister_on-Kept info.owner_thread c n1 in
              let k2 = register_on-Kept info.owner_thread d n2 in
              let n3 = (register_on info.owner_thread d n2).1 in
              elim (Bool-cases (is_ok (unregister_on info.owner_thread c n1).0)) [
                | inr z ↦ absurd (cc (rw (reload, e, x, y, replace_at, z) at s))
                | inl z ↦ elim (Bool-cases (is_ok (register_on info.owner_thread d n2).0)) [
                  | inr w ↦ absurd (cc (rw (reload, e, x, y, replace_at, z, w) at s))
                  | inl w ↦
                      rw (reload, e, x, y, replace_at, z, w)
                        (
                          d,
                          handle,
                          (rw y at behind),
                          swap_in-Replaced i c d handle n n3 inside
                              (omega
                                (arith, r.more, ap (length {A = Component}) (k2.comps ∙ k1.comps)))
                              v (k2.loaded ∙ k1.loaded ∙ r.loaded)
                              (k2.registry ∙ k1.registry ∙ r.registry)
                              (ap (λ l. get_or l c null_component) (k2.comps ∙ k1.comps)
                                ∙ r.comps c inside)
                              (k2.effects
                                ∙ k1.effects
                                ∙ load_staged-effects platform id name info.lib_name n y),
                        )
                ]
              ]
        ]
