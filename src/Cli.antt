-- ===== src/Cli.antt =====
-- src/core/nos_cli.c, the command line of a node: the history, the table of commands and the way
-- from a line to its command. What a command prints is left out. Cli/Editor.antt has the line
-- editor, Cli/Actions.antt what the commands do.
pub mod Numbers
pub mod Actions
pub mod Editor
pub mod History
pub mod Dispatch
pub mod Overflow
pub mod Thread
pub mod Usage
pub mod Session
pub mod Bounds
mod Tests
use codex_nos.Base.{
  ℕ, zero, suc, ◌+◌, Bool, true, false, Option, none, some, List, [], ◌∷◌, ◌&&◌, ◌||◌, get_or,
  length, take, ltb, ◌==◌, if◌then◌else◌, CString, str_eq, strncpy, strip_prefix, codes,
}

-- `strncmp(s, p, strlen(p)) == 0`
abbrev pub is_prefix : CString → CString → Bool
is_prefix p s = elim (strip_prefix p s) [ none ↦ false | some r ↦ true ]

abbrev pub max_history : ℕ
max_history = 3

-- `g_history`, newest first, and `g_history_count`.
pub record Entries : Type 0 where
  pub slots : List CString
  pub count : ℕ

abbrev pub slot_at : List CString → ℕ → CString
slot_at slots i = get_or slots i []

abbrev pub no_history : Entries
no_history = record { slots = [] ∷ [] ∷ [] ∷ []; count = 0 }

-- `history_add`, its command not null.
unfoldable pub history_add : CString → Entries → Entries
history_add [] h = h
history_add (c ∷ cmd) h =
    if ltb 0 h.count && str_eq (slot_at h.slots 0) (c ∷ cmd) then h else record {
      slots = strncpy 255 (c ∷ cmd) ∷ slot_at h.slots 0 ∷ slot_at h.slots 1 ∷ [];
      count = if ltb h.count max_history then h.count + 1 else h.count;
    }

-- `g_cli_cmds`
pub data Cmd : Type 0 where
  cmd_help show_components show_services show_db show_memory show_ipc show_stats : Cmd
  cmd_log perf_start perf_remote cmd_load cmd_unload cmd_reload cmd_quit : Cmd

abbrev pub cmd_name : Cmd → CString
cmd_name cmd_help = codes "help"
cmd_name show_components = codes "show components"
cmd_name show_services = codes "show services"
cmd_name show_db = codes "show db"
cmd_name show_memory = codes "show memory"
cmd_name show_ipc = codes "show ipc"
cmd_name show_stats = codes "show stats"
cmd_name cmd_log = codes "log"
cmd_name perf_start = codes "perf start"
cmd_name perf_remote = codes "perf remote"
cmd_name cmd_load = codes "load"
cmd_name cmd_unload = codes "unload"
cmd_name cmd_reload = codes "reload"
cmd_name cmd_quit = codes "quit"

abbrev pub cli_cmds : List Cmd
cli_cmds =
    cmd_help ∷ show_components ∷ show_services ∷ show_db ∷ show_memory ∷ show_ipc ∷ show_stats
    ∷ cmd_log ∷ perf_start ∷ perf_remote ∷ cmd_load ∷ cmd_unload ∷ cmd_reload ∷ cmd_quit ∷ []

abbrev pub space : ℕ
space = b' '

-- What follows a command's name in the line: the end, a space and the arguments, or something else.
abbrev pub args_of : CString → Option (Option CString)
args_of [] = some none
args_of (c ∷ args) = if c == space then some (some args) else none

-- The test of a command against the line.
abbrev pub cmd_args : Cmd → CString → Option (Option CString)
cmd_args cmd line = elim (strip_prefix (cmd_name cmd) line) [
  | none ↦ none
  | some rest ↦ args_of rest
]

-- The loop over `g_cli_cmds` of `node_cli_thread_entry`.
abbrev pub find_cmd : List Cmd → CString → Option (Cmd × Option CString)
find_cmd [] line = none
find_cmd (cmd ∷ cmds) line =
    let rest = find_cmd cmds line in
    elim (cmd_args cmd line) [ none ↦ rest | some args ↦ some (cmd, args) ]

unfoldable pub dispatch : CString → Option (Cmd × Option CString)
dispatch line = find_cmd cli_cmds line
