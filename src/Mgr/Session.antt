-- ===== src/Mgr/Session.antt =====
-- src/mgr/nos_mgr_main.c, `main`: the account of the children over a whole session.
use codex_nos.Base.{
  ℕ, ◌≡◌, refl, ◌≢◌, inl, inr, true, List, [], ◌∷◌, All, map, take, Bool-cases, Option-cases, arith,
  CString,
}
use codex_nos.Mgr.{
  NodeDef, Os, Mgr, is_running, fresh_node, node_at, find_node, start_refreshed, stop_refreshed,
  start_node, stop_node, restart_node, init_nodes, mgr_max_nodes,
}
use codex_nos.Mgr.Parse.{Command, parse}
use codex_nos.Mgr.Commands.{Round, heard, refreshed, perform, handle_command, session, main}
use codex_nos.Mgr.Held.{Fits, held}
use codex_nos.Mgr.Children.{
  Kernel, IsTracked, refresh_nodes-IsTracked, on_node-IsTracked, start_refreshed-Keeps,
  stop_refreshed-Keeps,
}

All-fresh : (defs : List NodeDef) → All Fits (map fresh_node defs)
All-fresh [] = tt
All-fresh (d ∷ ds) = (refl, All-fresh ds)

held-fresh : (q : ℕ) (defs : List NodeDef) → q ≢ 0 → held q (map fresh_node defs) ≡ 0
held-fresh q [] z = refl
held-fresh q (d ∷ ds) z = ground (arith, held-fresh q ds z, z)

module _ {S : Type 0} (os : Os S) (children : S → ℕ → ℕ) (k : Kernel os children) where
  -- `IsTracked`, of the manager.
  abbrev pub Tracks : Mgr S → Type 0
  Tracks m = IsTracked os children k m.nodes m.sys

  start_node-Tracks : (name : CString) (m : Mgr S) → Tracks m → Tracks (start_node os name m)
  unfolding start_node
  start_node-Tracks name m t =
      on_node-IsTracked os children k (start_refreshed os)
        (λ n s f c. start_refreshed-Keeps os children k n s f) name m t

  stop_node-Tracks : (name : CString) (m : Mgr S) → Tracks m → Tracks (stop_node os name m)
  unfolding stop_node
  stop_node-Tracks name m t =
      on_node-IsTracked os children k (stop_refreshed os) (stop_refreshed-Keeps os children k) name
        m t

  restart_node-Tracks : (name : CString) (m : Mgr S) → Tracks m → Tracks (restart_node os name m)
  unfolding restart_node
  restart_node-Tracks name m t = elim (Option-cases (find_node m.nodes name)) [
    | inl e ↦ rw (restart_node, e) t
    | inr (i, e) ↦ elim (Bool-cases (is_running (node_at m.nodes i).state)) [
      | inl r ↦
          rw (restart_node, e, r)
            (start_node-Tracks name (stop_node os name m) (stop_node-Tracks name m t))
      | inr r ↦ rw (restart_node, e, r) (start_node-Tracks name m t)
    ]
  ]

  refreshed-Tracks : (m : Mgr S) → Tracks m → Tracks (refreshed os m)
  unfolding refreshed
  refreshed-Tracks m t = refresh_nodes-IsTracked os children k m.nodes m.sys t

  perform-Tracks : (c : Command) (m : Mgr S) → Tracks m → Tracks (perform os c m)
  unfolding perform
  perform-Tracks Command.nothing m t = t
  perform-Tracks Command.help m t = t
  perform-Tracks Command.show_nodes m t = refreshed-Tracks m t
  perform-Tracks (Command.start name) m t = start_node-Tracks name m t
  perform-Tracks (Command.stop name) m t = stop_node-Tracks name m t
  perform-Tracks (Command.restart name) m t = restart_node-Tracks name m t
  perform-Tracks Command.quit m t = t
  perform-Tracks (Command.unknown cmd) m t = t

  session-Tracks : (rs : List Round) (m : Mgr S) → Tracks m → Tracks (session os rs m)
  unfolding session handle_command
  session-Tracks [] m t = refreshed-Tracks m t
  session-Tracks (r ∷ rs) m t = elim (Bool-cases m.keep_running) [
    | inr e ↦ rw (session, e) (refreshed-Tracks m t)
    | inl e ↦ elim (Option-cases r.line) [
      | inl w ↦ rw (session, e, w) (refreshed-Tracks (heard os r.signalled m) t)
      | inr (line, w) ↦
          let m' = heard os r.signalled m in
          rw (session, e, w)
            (session-Tracks rs (handle_command os line m')
              (perform-Tracks (parse line) (refreshed os m') (refreshed-Tracks m' t)))
    ]
  ]

  -- After any session of the manager, on a system whose fork, waitpid and kill do as documented and
  -- that starts without children, a node is in the running state exactly if it has a pid, and for
  -- each pid the number of nodes that have it is the number of children of that pid that were not
  -- waited for.
  pub main-Tracks :
      (defs : List NodeDef) (s : S) (rs : List Round)
      → ((q : ℕ) → children s q ≡ 0)
      → Tracks (main os defs s rs)
  unfolding main init_nodes
  main-Tracks defs s rs none_yet =
      session-Tracks rs
        (record { nodes = init_nodes defs; keep_running = true; sys = s; printed = [] })
        (record {
          all_fit = All-fresh (take mgr_max_nodes defs);
          account = λ q z. omega (arith, held-fresh q (take mgr_max_nodes defs) z, none_yet q);
        })
