-- ===== src/Cli/Editor.antt =====
-- src/core/nos_cli.c, the line editor: `handle_tab_completion` and `advanced_get_line`. The line is
-- what stands in `buf` before `pos`; the model lets it grow past the 256 bytes of `buf`.
use codex_nos.Base.{
  ℕ, ◌+◌, ◌-◌, Bool, Option, none, some, List, [], ◌∷◌, ◌++◌, ◌&&◌, ◌||◌, length, take, drop, map,
  ltb, ◌==◌, if◌then◌else◌, CString, codes,
}
use codex_nos.Cli.{is_prefix, Entries, slot_at, cli_cmds, cmd_name, space}

-- The loop `if (strncmp(names[i], word, strlen(word)) == 0) suggestions[sug_count++] = names[i];`.
abbrev pub matching : CString → List CString → List CString
matching word [] = []
matching word (n ∷ ns) = let rest = matching word ns in if is_prefix word n then n ∷ rest else rest

-- What follows the last space, as `strrchr` finds it.
abbrev pub last_word : CString → Option CString
last_word [] = none
last_word (c ∷ s) = elim (last_word s) [
  | some w ↦ some w
  | none ↦ if c == space then some s else none
]

abbrev pub show_args : List CString
show_args =
    codes "components"
    ∷ codes "services"
    ∷ codes "db"
    ∷ codes "memory"
    ∷ codes "ipc"
    ∷ codes "stats"
    ∷ []

abbrev pub stats_args : List CString
stats_args = codes "ipc" ∷ codes "log" ∷ codes "buffer" ∷ codes "scheduler" ∷ []

abbrev pub log_args : List CString
log_args = codes "stats" ∷ codes "level" ∷ codes "spam" ∷ []

abbrev pub levels : List CString
levels = codes "DEBUG" ∷ codes "INFO" ∷ codes "WARN" ∷ codes "ERROR" ∷ []

abbrev pub perf_args : List CString
perf_args = codes "start" ∷ codes "remote" ∷ []

abbrev takes_comp : CString → Bool
takes_comp line =
    is_prefix (codes "load ") line
    || is_prefix (codes "unload ") line
    || is_prefix (codes "reload ") line

-- The suggestions for the last word; `comps` are the names of the loaded components.
abbrev pub arg_suggestions : List CString → CString → CString → List CString
arg_suggestions comps line word =
    if is_prefix (codes "log ") line
    then (if is_prefix (codes "log level ") line
        then matching word levels
        else if length line == 4 + length word
        then matching word log_args
        else [])
    else if is_prefix (codes "perf ") line
    then matching word perf_args
    else if is_prefix (codes "show stats ") line
    then matching word stats_args
    else if is_prefix (codes "show ") line
    then matching word show_args
    else if takes_comp line
    then matching word comps
    else []

-- The suggestions for a line that no command's name begins with.
abbrev pub by_word : List CString → CString → Option CString → List CString × CString
by_word comps line none = ([], line)
by_word comps line (some word) = (arg_suggestions comps line word, word)

-- The suggestions, and the part of the line that they complete.
abbrev pub suggestions : List CString → CString → List CString × CString
suggestions comps line = elim (matching line (map cmd_name cli_cmds)) [
  | n ∷ ns ↦ (n ∷ ns, line)
  | [] ↦ by_word comps line (last_word line)
]

abbrev pub completed : CString → List CString × CString → CString
completed line ([], word) = line
completed line (n ∷ [], word) = line ++ drop (length word) n
completed line (n ∷ m ∷ ns, word) = line

-- `handle_tab_completion`
unfoldable pub complete : List CString → CString → CString
complete comps line = completed line (suggestions comps line)

-- What `advanced_get_line` reads: a byte, the up key, another escape sequence, or one that is cut.
pub data Key : Type 0 where
  plain : ℕ → Key
  up escape cut : Key

abbrev pub esc : ℕ
esc = 27

-- The bytes typed, as keys.
unfoldable pub decode : List ℕ → List Key
decode [] = []
decode (c ∷ []) = if c == esc then cut ∷ [] else plain c ∷ []
decode (c ∷ a ∷ []) = let rest = decode (a ∷ []) in if c == esc then cut ∷ [] else plain c ∷ rest
decode (c ∷ a ∷ b ∷ s) =
    let rest = decode (a ∷ b ∷ s) in
    let after = decode s in
    if c == esc then (if a == b'[' && b == b'A' then up else escape) ∷ after else plain c ∷ rest

-- How the reading of a line ends: by Enter, at the end of `buf`, in an escape sequence, or at the end
-- of the input. Only Enter puts a 0 behind the line.
pub data Outcome : Type 0 where
  entered full broken : CString → Outcome
  eof : Outcome

abbrev pub line_max : ℕ
line_max = 255

-- The line, and `h_idx + 1`.
pub record Editor : Type 0 where
  pub line : CString
  pub shown : ℕ

abbrev pub is_enter : ℕ → Bool
is_enter c = c == 10 || c == 13

abbrev pub finishes : Key → CString → Option Outcome
finishes (plain c) line = if is_enter c then some (entered line) else none
finishes up line = none
finishes escape line = none
finishes cut line = some (broken line)

-- A key that does not end the line.
unfoldable pub key_step : List CString → Entries → Key → Editor → Editor
key_step comps h (plain c) e =
    if c == 127 || c == 8
    then record e { line = take (length e.line - 1) e.line }
    else if c == 9
    then record e { line = complete comps e.line }
    else record e { line = e.line ++ c ∷ [] }
key_step comps h up e =
    if ltb e.shown h.count
    then record { line = slot_at h.slots e.shown; shown = e.shown + 1 }
    else e
key_step comps h escape e = e
key_step comps h cut e = e

-- Whether the loop goes on with a key, and what it returns if not.
abbrev pub stop : Key → Editor → Option Outcome
stop k e =
    let end = finishes k e.line in if ltb (length e.line) line_max then end else some (full e.line)

-- The loop of `advanced_get_line`.
unfoldable pub get_line : List CString → Entries → Editor → List Key → Outcome
unfolding key_step
get_line comps h e [] = if ltb (length e.line) line_max then eof else full e.line
get_line comps h e (k ∷ ks) = elim (stop k e) [
  | some o ↦ o
  | none ↦ get_line comps h (key_step comps h k e) ks
]
