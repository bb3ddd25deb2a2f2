-- ===== src/Cli/Dispatch.antt =====
-- src/core/nos_cli.c, the loop over `g_cli_cmds`: every command is reached by its name.
use codex_nos.Base.{◌≡◌, refl, Option, none, some, ◌∷◌, ◌++◌, CString}
use codex_nos.Cli.{
  Cmd, cmd_help, show_components, show_services, show_db, show_memory, show_ipc, show_stats,
  cmd_log, perf_start, perf_remote, cmd_load, cmd_unload, cmd_reload, cmd_quit, cmd_name, space,
  dispatch,
}

-- The way to type a command.
abbrev pub typed : Cmd → Option CString → CString
typed cmd none = cmd_name cmd
typed cmd (some args) = cmd_name cmd ++ (space ∷ args)

pub dispatch-typed :
    (cmd : Cmd) (args : Option CString) → dispatch (typed cmd args) ≡ some (cmd, args)
unfolding dispatch
dispatch-typed cmd_help none = refl
dispatch-typed cmd_help (some args) = refl
dispatch-typed show_components none = refl
dispatch-typed show_components (some args) = refl
dispatch-typed show_services none = refl
dispatch-typed show_services (some args) = refl
dispatch-typed show_db none = refl
dispatch-typed show_db (some args) = refl
dispatch-typed show_memory none = refl
dispatch-typed show_memory (some args) = refl
dispatch-typed show_ipc none = refl
dispatch-typed show_ipc (some args) = refl
dispatch-typed show_stats none = refl
dispatch-typed show_stats (some args) = refl
dispatch-typed cmd_log none = refl
dispatch-typed cmd_log (some args) = refl
dispatch-typed perf_start none = refl
dispatch-typed perf_start (some args) = refl
dispatch-typed perf_remote none = refl
dispatch-typed perf_remote (some args) = refl
dispatch-typed cmd_load none = refl
dispatch-typed cmd_load (some args) = refl
dispatch-typed cmd_unload none = refl
dispatch-typed cmd_unload (some args) = refl
dispatch-typed cmd_reload none = refl
dispatch-typed cmd_reload (some args) = refl
dispatch-typed cmd_quit none = refl
dispatch-typed cmd_quit (some args) = refl
