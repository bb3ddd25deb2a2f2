-- ===== src/Mgr/Commands.antt =====
-- src/mgr/nos_mgr_main.c, `handle_command` and the loop of `main`; a session is a list of rounds.
use codex_nos.Base.{
  Bool, true, false, Option, none, some, List, [], ◌∷◌, ◌++◌, if◌then◌else◌, CString,
}
use codex_nos.Mgr.{
  Os, Mgr, NodeDef, Note, help_text, table, unknown_command, init_nodes, refresh_nodes, start_node,
  stop_node, restart_node,
}
use codex_nos.Mgr.Parse.{Command, parse}

-- A round of the loop of `main`: whether a signal comes before the line is there, and the line that
-- `fgets` gives, if it gives one.
pub record Round : Type 0 where
  pub signalled : Bool
  pub line : Option CString

module _ {S : Type 0} (os : Os S) where
  abbrev say : Note → Mgr S → Mgr S
  say note m = record m { printed = m.printed ++ note ∷ [] }

  -- `refresh_nodes`, on the manager.
  unfoldable pub refreshed : Mgr S → Mgr S
  refreshed m =
      let (nodes, s) = refresh_nodes os m.nodes m.sys in record m { nodes = nodes; sys = s }

  -- The branches of `handle_command`.
  unfoldable pub perform : Command → Mgr S → Mgr S
  unfolding refreshed
  perform Command.nothing m = m
  perform Command.help m = say help_text m
  perform Command.show_nodes m = let m' = refreshed m in say (table m'.nodes) m'
  perform (Command.start name) m = start_node os name m
  perform (Command.stop name) m = stop_node os name m
  perform (Command.restart name) m = restart_node os name m
  perform Command.quit m = record m { keep_running = false }
  perform (Command.unknown cmd) m = say (unknown_command cmd) m

  -- `handle_command`
  unfoldable pub handle_command : CString → Mgr S → Mgr S
  unfolding perform
  handle_command line m = perform (parse line) (refreshed m)

  -- A signal in a round of `main`, before the line is there.
  abbrev pub heard : Bool → Mgr S → Mgr S
  heard signalled m = record m { keep_running = if signalled then false else m.keep_running }

  -- The loop of `main`, and what follows it.
  unfoldable pub session : List Round → Mgr S → Mgr S
  unfolding handle_command
  session [] m = refreshed m
  session (r ∷ rs) m =
      let m' = heard r.signalled m in
      elim m.keep_running [
        | false ↦ refreshed m
        | true ↦ elim r.line [
          | none ↦ refreshed m'
          | some line ↦ session rs (handle_command line m')
        ]
      ]

  -- `main`
  unfoldable pub main : List NodeDef → S → List Round → Mgr S
  unfolding session
  main defs s rs =
      session rs (record { nodes = init_nodes defs; keep_running = true; sys = s; printed = [] })
