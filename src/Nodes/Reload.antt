-- ===== src/Nodes/Reload.antt =====
-- src/core/nos_node_mgr.c, `node_reload_component`: what an error leaves behind.
use mathlib.Core.Path.{subst}
use codex_nos.Base.{
  ℕ, ◌≤◌, ◌≡◌, sym, inl, inr, some, List, err, get_elem?, length, CString, Bool-cases, Option-cases,
  arith,
}
use codex_nos.Sched.{Thread}
use codex_nos.Services.Route.{LoadedComp, loaded_at, is_ok}
use codex_nos.Nodes.{NodeDef, Node, comp_at, unregister_on, loaded_by_name, destroy_component}
use codex_nos.Nodes.Staging.{Platform, load_staged}
use codex_nos.Nodes.Changes.{replace_at, reload}
use codex_nos.Nodes.Intact.{
  Intact, Intact-refl, FewComponents, destroy-Intact, load_staged-Intact, unregister_on-err,
  register-unregister_ok,
}

module _ (def : NodeDef) (platform : Platform) where
  replace_at-Intact :
      (i : ℕ) (info : LoadedComp) (id c d handle : ℕ) (n n1 : Node)
      → FewComponents n
      → Intact n n1
      → length n.world.components ≤ d
      → (replace_at def platform i info id c d handle n1).0 ≡ err
      → Intact n (replace_at def platform i info id c d handle n1).1
  unfolding replace_at
  replace_at-Intact i info id c d handle n n1 few r h e =
      elim (Bool-cases (is_ok (unregister_on info.owner_thread c n1).0)) [
        | inr z ↦
            rw (replace_at, z)
              (subst (λ n2. Intact n (destroy_component d handle n2))
                (sym (unregister_on-err info.owner_thread c n1 z))
                (destroy-Intact n n1 d handle r h))
        | inl z ↦
            let few1 : FewComponents n1 =
              subst
                (λ (l : List Thread).
                  (t : ℕ) (th : Thread) → get_elem? l t ≡ some th → length th.components ≤ 32)
                (sym r.threads) few in
            let fits = register-unregister_ok info.owner_thread c d n1 few1 z in
            absurd (ground (arith, rw (replace_at, z, fits) at e))
      ]

  -- If no thread holds more than 32 components, a reload that fails leaves the table of loaded
  -- components, the registry, the threads with their queues, the pool, the timers and every
  -- component that was there as they were.
  pub reload_error :
      (name : CString) (n : Node)
      → FewComponents n
      → (reload def platform name n).0 ≡ err
      → Intact n (reload def platform name n).1
  unfolding reload
  reload_error name n few e = elim (Option-cases (loaded_by_name n name)) [
    | inl z ↦ rw (reload, z) (Intact-refl n)
    | inr (i, z) ↦ elim (Option-cases (loaded_at n.world i).comp) [
      | inl x ↦ rw (reload, z, x) (Intact-refl n)
      | inr (c, x) ↦
          let info = loaded_at n.world i in
          let id = (comp_at n c).id in
          let (r, behind) = load_staged-Intact platform id name info.lib_name n in
          elim (Option-cases (load_staged platform id name info.lib_name n).0) [
            | inl y ↦ rw (reload, z, x, y) r
            | inr ((d, handle), y) ↦
                let n1 = (load_staged platform id name info.lib_name n).1 in
                let failed : (replace_at def platform i info id c d handle n1).0 ≡ err =
                  rw (reload, z, x, y) at e in
                rw (reload, z, x, y)
                  (replace_at-Intact i info id c d handle n n1 few r (rw y at behind) failed)
          ]
    ]
  ]
