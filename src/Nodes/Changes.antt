-- ===== src/Nodes/Changes.antt =====
-- src/core/nos_node_mgr.c: `node_unload_component` and `node_reload_component`.
use codex_nos.Base.{
  ℕ, suc, zero, not, Option, none, some, List, [], ◌∷◌, Status, ok, err, set, if◌then◌else◌,
  CString,
}
use codex_nos.Services.{Registry, register_provider_bind, unregister_provider}
use codex_nos.Services.Route.{LoadedComp, loaded_at, is_ok}
use codex_nos.Nodes.{
  ServiceDef, NodeDef, Node, comp_at, register_on, unregister_on, provides, stop_component,
  free_component, destroy_component, loaded_by_name,
}
use codex_nos.Nodes.Staging.{Platform, load_staged}

-- The loop that closes the gap at `i`.
abbrev pub remove_at : ℕ → List LoadedComp → List LoadedComp
remove_at i [] = []
remove_at zero (x ∷ xs) = xs
remove_at (suc i) (x ∷ xs) = x ∷ remove_at i xs

abbrev pub set_registry : Registry → Node → Node
set_registry r n = record n { world = record n.world { registry = r } }

abbrev pub set_loaded : List LoadedComp → Node → Node
set_loaded l n = record n { world = record n.world { loaded_info = l } }

module _ (def : NodeDef) where
  -- The loop of `node_register_local_providers`.
  unfoldable pub register_providers : ℕ → ℕ → Option ℕ → List ServiceDef → Registry → Registry
  register_providers id c t [] r = r
  register_providers id c t (svc ∷ svcs) r =
      register_providers id c t svcs
        (if provides def id svc then (register_provider_bind r svc.service_id (some c) t).1 else r)

  -- The loop of `node_unregister_local_providers`.
  unfoldable pub unregister_providers : ℕ → List ServiceDef → Registry → Registry
  unregister_providers id [] r = r
  unregister_providers id (svc ∷ svcs) r =
      unregister_providers id svcs
        (if provides def id svc then (unregister_provider r svc.service_id).1 else r)

  -- The steps of `node_unload_component` on entry `i`, of component `c`.
  unfoldable pub unload_at : ℕ → LoadedComp → ℕ → Node → Node
  unfolding unregister_providers
  unload_at i info c n =
      let n1 = (unregister_on info.owner_thread c n).1 in
      let n2 =
        set_registry (unregister_providers (comp_at n1 c).id def.services n1.world.registry) n1 in
      let n3 = stop_component def info.owner_thread c n2 in
      let n4 = destroy_component c info.handle n3 in
      set_loaded (remove_at i n4.world.loaded_info) n4

  -- `node_unload_component`
  unfoldable pub unload : CString → Node → Status × Node
  unfolding unload_at
  unload name n = elim (loaded_by_name n name) [
    | none ↦ (err, n)
    | some i ↦ elim ((loaded_at n.world i).comp) [
      | none ↦ (err, n)
      | some c ↦ (ok, unload_at i (loaded_at n.world i) c n)
    ]
  ]

  -- The last steps of `node_reload_component`: the new component `d` takes the entry of `c`.
  unfoldable pub swap_in : ℕ → LoadedComp → ℕ → ℕ → ℕ → ℕ → Node → Node
  unfolding register_providers
  swap_in i info id c d handle n =
      let info' : LoadedComp = record info { comp = some d; handle = handle } in
      let n1 = set_loaded (set n.world.loaded_info i info') n in
      let n2 =
        set_registry (register_providers id d info.owner_thread def.services n1.world.registry)
          n1 in
      free_component c info.handle (stop_component def info.owner_thread c n2)

  -- `node_reload_component`
  module _ (platform : Platform) where
    -- After the new component `d` is staged.
    unfoldable pub replace_at : ℕ → LoadedComp → ℕ → ℕ → ℕ → ℕ → Node → Status × Node
    unfolding swap_in
    replace_at i info id c d handle n =
        let (st1, n1) = unregister_on info.owner_thread c n in
        let (st2, n2) = register_on info.owner_thread d n1 in
        let (st3, n3) = register_on info.owner_thread c n2 in
        if not (is_ok st1)
        then (err, destroy_component d handle n1)
        else if not (is_ok st2)
        then (err, destroy_component d handle n3)
        else (ok, swap_in i info id c d handle n2)

    -- `node_reload_component`
    unfoldable pub reload : CString → Node → Status × Node
    unfolding replace_at
    reload name n = elim (loaded_by_name n name) [
      | none ↦ (err, n)
      | some i ↦ elim ((loaded_at n.world i).comp) [
        | none ↦ (err, n)
        | some c ↦
            let info = loaded_at n.world i in
            let id = (comp_at n c).id in
            let (staged, n1) = load_staged platform id name info.lib_name n in
            elim staged [ none ↦ (err, n1) | some (d, handle) ↦ replace_at i info id c d handle n1 ]
      ]
    ]
