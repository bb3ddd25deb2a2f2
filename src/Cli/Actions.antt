-- ===== src/Cli/Actions.antt =====
-- src/core/nos_cli.c, the handlers of the commands, as what they ask of the node.
use codex_nos.Base.{
  ℕ, Option, none, some, List, [], ◌∷◌, ◌==◌, if◌then◌else◌, CString, strip_prefix, codes, drop,
  ◌-◌, ◌^◌, leb, length,
}
use codex_nos.Log.{Level}
use codex_nos.Cli.{
  is_prefix, Cmd, show_stats, cmd_log, perf_start, perf_remote, cmd_load, cmd_unload, cmd_reload,
  cmd_quit,
}
use codex_nos.Cli.Numbers.{atoi, scan_u, scan_s, case_eq}

-- What a handler does: print, change a level, send a message, change a component, or stop the node.
-- A message is given by its service, its code and the words of its payload. `stale_read` stands for
-- what an earlier line left behind the 0 of this one being read as arguments, `overflow` for a word
-- that is written past the end of the array it is read into.
pub data Action : Type 0 where
  show : Cmd → Action
  dump_module : CString → Action
  dump_all : Action
  log_usage : Action
  log_stats : Action
  set_filter_level : Level → Action
  set_comp_level : ℕ → Level → Action
  send : (service code : ℕ) → List ℕ → Action
  reload : CString → Action
  unload : CString → Action
  quit : Action
  none_at_all : Action
  stale_read : Action
  overflow : Action

-- `str_to_level`
unfoldable pub str_to_level : CString → Level
str_to_level s =
    if case_eq s (codes "debug")
    then Level.debug
    else if case_eq s (codes "info")
    then Level.info
    else if case_eq s (codes "warn")
    then Level.warn
    else if case_eq s (codes "error")
    then Level.error
    else Level.info

-- `sub` and `val`
abbrev pub word_size : ℕ
word_size = 64

-- The second word of `log level`.
abbrev level_of_comp : CString → Option (CString × CString) → Action
level_of_comp sub none = set_filter_level (str_to_level sub)
level_of_comp sub (some (val, rest)) =
    if leb word_size (length val) then overflow else set_comp_level (atoi sub) (str_to_level val)

-- `log level`, from `args + 6` on.
unfoldable pub log_level : CString → Action
unfolding str_to_level
log_level s = elim (scan_s s) [
  | none ↦ log_usage
  | some (sub, rest) ↦
      if leb word_size (length sub) then overflow else level_of_comp sub (scan_s rest)
]

-- `log level`, from `args + 5` on.
abbrev pub after_level : CString → Action
after_level [] = stale_read
after_level (c ∷ s) = log_level s

-- `log spam`, from `args + 4` on.
unfoldable pub log_spam : CString → Action
log_spam [] = send 110 3002 (2000 ∷ [])
log_spam (c ∷ s) = send 110 3002 (atoi s ∷ [])

-- `do_log`; the log service is taken to be registered.
unfoldable pub do_log : Option CString → Action
unfolding log_level log_spam
do_log none = log_usage
do_log (some args) =
    if is_prefix (codes "stats") args
    then log_stats
    else if is_prefix (codes "spam") args
    then log_spam (drop 4 args)
    else if is_prefix (codes "level") args
    then after_level (drop 5 args)
    else none_at_all

abbrev pub or_default : ℕ → ℕ
or_default count = if count == 0 then 10000 else count

-- `do_perf_start`; the buffer is taken to be there, as in the other sends.
unfoldable pub do_perf_start : Option CString → Action
do_perf_start none = send 111 3001 (10000 ∷ [])
do_perf_start (some args) = send 111 3001 (or_default (atoi args) ∷ [])

abbrev pub uint32_max : ℕ
uint32_max = 2 ^ 32 - 1

abbrev pub second_number : ℕ → Option (ℕ × CString) → ℕ
second_number d none = d
second_number d (some (v, rest)) = v

abbrev numbers : Option (ℕ × CString) → ℕ × ℕ
numbers none = (10000, 0)
numbers (some (v, rest)) = (v, second_number 0 (scan_u rest))

-- The count and the payload size that `do_perf_remote_start` reads.
unfoldable pub remote_args : Option CString → ℕ × ℕ
remote_args none = (10000, 0)
remote_args (some args) = elim (strip_prefix (codes "sweep") args) [
  | some rest ↦ (second_number 10000 (scan_u rest), uint32_max)
  | none ↦ numbers (scan_u args)
]

-- `do_perf_remote_start`
unfoldable pub do_perf_remote : Option CString → Action
unfolding remote_args
do_perf_remote args =
    let (count, size) = remote_args args in send 113 3001 (or_default count ∷ size ∷ [])

abbrev with_args : Option CString → (CString → Action) → Action
with_args none f = none_at_all
with_args (some args) f = f args

-- `do_show_stats`
abbrev pub do_show_stats : Option CString → Action
do_show_stats none = dump_all
do_show_stats (some []) = dump_all
do_show_stats (some (c ∷ s)) = dump_module (c ∷ s)

-- The handlers of `g_cli_cmds`.
unfoldable pub handler : Cmd → Option CString → Action
unfolding do_log do_perf_start do_perf_remote
handler show_stats args = do_show_stats args
handler cmd_log args = do_log args
handler perf_start args = do_perf_start args
handler perf_remote args = do_perf_remote args
handler cmd_load args = with_args args reload
handler cmd_reload args = with_args args reload
handler cmd_unload args = with_args args unload
handler cmd_quit args = quit
handler cmd args = show cmd
