-- ===== src/Cli/Usage.antt =====
-- src/core/nos_cli.c, the commands as the help and the usage texts give them: how each is typed, and
-- what it asks for.
pub mod Asks
use codex_nos.Base.{
  ℕ, ◌<◌, ◌≡◌, ◌&&◌, Bool, true, List, [], ◌∷◌, ◌++◌, length, leb, ltb, if◌then◌else◌, CString,
  codes, ◌==◌,
}
use codex_nos.Log.{Level, debug, info, warn, error}
use codex_nos.Cli.{cmd_help, show_components, show_services, show_db, show_memory, show_ipc, space}
use codex_nos.Cli.Actions.{
  Action, show, dump_module, dump_all, log_stats, set_filter_level, set_comp_level, send, reload,
  unload, quit, uint32_max,
}
use codex_nos.Cli.Numbers.Decimal.{chars, value, IsNumber}

-- A use of a command. A name stands for what follows the command and its space, digits for a number.
pub data Usage : Type 0 where
  help components services db memory ipc : Usage
  stats : Usage
  stats_of : CString → Usage
  dropped : Usage
  filter : Level → Usage
  filter_of : List ℕ → Level → Usage
  spam : Usage
  spam_of : List ℕ → Usage
  perf : Usage
  perf_of : List ℕ → Usage
  remote : Usage
  remote_of : List ℕ → Usage
  remote_sized : List ℕ → List ℕ → Usage
  sweep : Usage
  sweep_of : List ℕ → Usage
  load reloads unloads : CString → Usage
  quits : Usage

abbrev pub level_word : Level → CString
level_word debug = codes "DEBUG"
level_word info = codes "INFO"
level_word warn = codes "WARN"
level_word error = codes "ERROR"

-- The line to type.
abbrev pub print : Usage → CString
print help = codes "help"
print components = codes "show components"
print services = codes "show services"
print db = codes "show db"
print memory = codes "show memory"
print ipc = codes "show ipc"
print stats = codes "show stats"
print (stats_of name) = codes "show stats " ++ name
print dropped = codes "log stats"
print (filter level) = codes "log level " ++ level_word level
print (filter_of comp level) = codes "log level " ++ chars comp ++ space ∷ level_word level
print spam = codes "log spam"
print (spam_of n) = codes "log spam " ++ chars n
print perf = codes "perf start"
print (perf_of n) = codes "perf start " ++ chars n
print remote = codes "perf remote"
print (remote_of n) = codes "perf remote " ++ chars n
print (remote_sized n size) = codes "perf remote " ++ chars n ++ space ∷ chars size
print sweep = codes "perf remote sweep"
print (sweep_of n) = codes "perf remote sweep " ++ chars n
print (load name) = codes "load " ++ name
print (reloads name) = codes "reload " ++ name
print (unloads name) = codes "unload " ++ name
print quits = codes "quit"

-- The count of a test: 10000 in place of 0.
abbrev pub count_of : List ℕ → ℕ
count_of n = if value 0 n == 0 then 10000 else value 0 n

-- What it asks for. A load is a reload.
abbrev pub meaning : Usage → Action
meaning help = show cmd_help
meaning components = show show_components
meaning services = show show_services
meaning db = show show_db
meaning memory = show show_memory
meaning ipc = show show_ipc
meaning stats = dump_all
meaning (stats_of []) = dump_all
meaning (stats_of (c ∷ name)) = dump_module (c ∷ name)
meaning dropped = log_stats
meaning (filter level) = set_filter_level level
meaning (filter_of comp level) = set_comp_level (value 0 comp) level
meaning spam = send 110 3002 (2000 ∷ [])
meaning (spam_of n) = send 110 3002 (value 0 n ∷ [])
meaning perf = send 111 3001 (10000 ∷ [])
meaning (perf_of n) = send 111 3001 (count_of n ∷ [])
meaning remote = send 113 3001 (10000 ∷ 0 ∷ [])
meaning (remote_of n) = send 113 3001 (count_of n ∷ 0 ∷ [])
meaning (remote_sized n size) = send 113 3001 (count_of n ∷ value 0 size ∷ [])
meaning sweep = send 113 3001 (10000 ∷ uint32_max ∷ [])
meaning (sweep_of n) = send 113 3001 (count_of n ∷ uint32_max ∷ [])
meaning (load name) = reload name
meaning (reloads name) = reload name
meaning (unloads name) = unload name
meaning quits = quit

-- What a session asks for: each use in turn, up to the first that quits.
abbrev pub asked : List Usage → List Action
asked [] = []
asked (quits ∷ us) = quit ∷ []
asked (u ∷ us) = meaning u ∷ asked us

-- The numbers of a use are numbers.
abbrev pub HasNumbers : Usage → Type 0
HasNumbers (filter_of comp level) = IsNumber comp
HasNumbers (spam_of n) = IsNumber n
HasNumbers (perf_of n) = IsNumber n
HasNumbers (remote_of n) = IsNumber n
HasNumbers (remote_sized n size) = IsNumber n × IsNumber size
HasNumbers (sweep_of n) = IsNumber n
HasNumbers u = Unit

-- The visible characters, and the space.
abbrev pub visible : CString → Bool
visible [] = true
visible (c ∷ s) = leb 32 c && ltb c 127 && visible s

-- A use whose numbers are numbers, whose line is of visible characters and fits the buffer.
pub record IsTypable (u : Usage) : Type 0 where
  pub numbers : HasNumbers u
  pub fits : length (print u) < 255
  pub plain_text : visible (print u) ≡ true
