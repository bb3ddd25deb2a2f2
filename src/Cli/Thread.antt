-- ===== src/Cli/Thread.antt =====
-- src/core/nos_cli.c, `node_cli_thread_entry`, from a line on: the history, the command and its handler.
use codex_nos.Base.{Bool, true, false, Option, none, some, List, [], ◌∷◌, CString, if◌then◌else◌}
use codex_nos.Cli.{Entries, Cmd, history_add, dispatch}
use codex_nos.Cli.Actions.{Action, none_at_all, quit, overflow, handler}

-- What a line asks for.
abbrev pub action_of : Option (Cmd × Option CString) → Action
action_of none = none_at_all
action_of (some (cmd, args)) = handler cmd args

-- Whether the loop goes on: not when `keep_running` is cleared, and not after an overflow, behind
-- which nothing is known.
abbrev pub goes_on : Action → Bool
goes_on quit = false
goes_on overflow = false
goes_on a = true

-- A pass through the loop with a line that is not empty.
unfoldable pub run_line : CString → Entries → Entries × Action
run_line line h = (history_add line h, action_of (dispatch line))

-- The loop over the lines, until `quit` or an overflow; a line of length 0 is skipped. Nothing else
-- is taken to stop the node meanwhile.
unfoldable pub thread_entry : List CString → Entries → Entries × List Action
unfolding run_line
thread_entry [] h = (h, [])
thread_entry ([] ∷ lines) h = thread_entry lines h
thread_entry ((c ∷ line) ∷ lines) h =
    let (h', a) = run_line (c ∷ line) h in
    let (h'', acts) = thread_entry lines h' in if goes_on a then (h'', a ∷ acts) else (h', a ∷ [])
