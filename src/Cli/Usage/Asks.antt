-- ===== src/Cli/Usage/Asks.antt =====
-- src/core/nos_cli.c, the dispatch and the handlers: what the line of a use makes them do.
use codex_nos.Base.{
  ℕ, ◌≡◌, refl, ap, sym, ◌∙◌, none, some, Option, List, [], ◌∷◌, ◌++◌, length, length-map, codes,
  leb, false, CString, strip_prefix, ◌+◌, ◌==◌, arith,
}
use codex_nos.Log.{Level, debug, info, warn, error}
use codex_nos.Cli.{
  Cmd, cmd_help, show_components, show_services, show_db, show_memory, show_ipc, show_stats,
  cmd_log, perf_start, perf_remote, cmd_load, cmd_reload, cmd_unload, cmd_quit, dispatch, space,
}
use codex_nos.Cli.Actions.{
  Action, handler, do_log, log_spam, log_level, do_perf_start, do_perf_remote, remote_args,
  or_default, str_to_level, send, uint32_max, set_comp_level, set_filter_level,
}
use codex_nos.Cli.Dispatch.{typed, dispatch-typed}
use codex_nos.Cli.Numbers.{atoi, scan_u, scan_s, case_eq}
use codex_nos.Cli.Numbers.Decimal.{chars, value, IsNumber, scan_u-chars, scan_s-chars}
use codex_nos.Cli.Usage.{
  Usage, help, components, services, db, memory, ipc, stats, stats_of, dropped, filter, filter_of,
  spam, spam_of, perf, perf_of, remote, remote_of, remote_sized, sweep, sweep_of, load, reloads,
  unloads, quits, print, meaning, HasNumbers, level_word,
}

append-none : (s : CString) → s ++ [] ≡ s
append-none [] = refl
append-none (c ∷ s) = ap (λ t. c ∷ t) (append-none s)

-- A number with nothing behind it.
scan_u-number : (ds : List ℕ) → IsNumber ds → scan_u (chars ds) ≡ some (value 0 ds, [])
scan_u-number ds n = ap scan_u (sym (append-none (chars ds))) ∙ scan_u-chars ds [] n refl

atoi-number : (ds : List ℕ) → IsNumber ds → atoi (chars ds) ≡ value 0 ds
unfolding atoi
atoi-number ds n = rw (atoi, scan_u-number ds n) refl

-- A number is not the word `sweep`.
strip_prefix-sweep :
    (ds : List ℕ) (s : CString) → IsNumber ds → strip_prefix (codes "sweep") (chars ds ++ s) ≡ none
strip_prefix-sweep [] s n = absurd (omega (arith, n.some_digit))
strip_prefix-sweep (d ∷ ds) s n =
    let d_small = n.decimal.0 in let no : (b's' == 48 + d) ≡ false = ground arith in rw no refl

level_read : (level : Level) → str_to_level (level_word level) ≡ level
unfolding str_to_level case_eq
level_read debug = refl
level_read info = refl
level_read warn = refl
level_read error = refl

-- The name of a level is one word, and short.
level_scan :
    (level : Level)
    → (scan_s (space ∷ level_word level) ≡ some (level_word level, []))
      × (leb 64 (length (level_word level)) ≡ false)
unfolding scan_s
level_scan debug = (refl, refl)
level_scan info = (refl, refl)
level_scan warn = (refl, refl)
level_scan error = (refl, refl)

log_level-filter : (level : Level) → log_level (level_word level) ≡ set_filter_level level
unfolding log_level scan_s case_eq
log_level-filter debug = refl
log_level-filter info = refl
log_level-filter warn = refl
log_level-filter error = refl

module _ (n : List ℕ) (h : IsNumber n) where
  log_spam-number : log_spam (space ∷ chars n) ≡ send 110 3002 (value 0 n ∷ [])
  unfolding log_spam
  log_spam-number = ap (λ k. send 110 3002 (k ∷ [])) (atoi-number n h)

  perf_start-number : do_perf_start (some (chars n)) ≡ send 111 3001 (or_default (value 0 n) ∷ [])
  unfolding do_perf_start
  perf_start-number = ap (λ k. send 111 3001 (or_default k ∷ [])) (atoi-number n h)

  remote_args-number : remote_args (some (chars n)) ≡ (value 0 n, 0)
  unfolding remote_args scan_u
  remote_args-number =
      let no = strip_prefix-sweep n [] h in
      let plain : strip_prefix (codes "sweep") (chars n) ≡ none =
        ap (strip_prefix (codes "sweep")) (sym (append-none (chars n))) ∙ no in
      rw (remote_args, plain, scan_u-number n h) refl

  remote_args-sized :
      (size : List ℕ)
      → IsNumber size
      → remote_args (some (chars n ++ space ∷ chars size)) ≡ (value 0 n, value 0 size)
  unfolding remote_args scan_u
  remote_args-sized size k =
      let no = strip_prefix-sweep n (space ∷ chars size) h in
      let first = scan_u-chars n (space ∷ chars size) h refl in
      let second : scan_u (space ∷ chars size) ≡ some (value 0 size, []) = scan_u-number size k in
      rw (remote_args, no, first, second) refl

  remote_args-sweep : remote_args (some (codes "sweep " ++ chars n)) ≡ (value 0 n, uint32_max)
  unfolding remote_args scan_u
  remote_args-sweep =
      let e : scan_u (space ∷ chars n) ≡ some (value 0 n, []) = scan_u-number n h in
      rw (remote_args, e) refl

  log_level-number :
      (level : Level)
      → log_level (chars n ++ space ∷ level_word level) ≡ set_comp_level (value 0 n) level
  unfolding log_level scan_s
  log_level-number level =
      let first = scan_s-chars n (level_word level) h in
      let (second, short) = level_scan level in
      let few : leb 64 (length (chars n)) ≡ false =
        ground (arith, length-map (λ d. 48 + d) n, h.few) in
      rw (log_level, first, few, second, short, atoi-number n h, level_read level) refl

-- The line reaches a command, whose handler does `a`.
pub record Runs (line : CString) (a : Action) : Type 0 where
  pub cmd : Cmd
  pub args : Option CString
  pub found : dispatch line ≡ some (cmd, args)
  pub acts : handler cmd args ≡ a

through :
    (cmd : Cmd) (args : Option CString) (a : Action)
    → handler cmd args ≡ a
    → Runs (typed cmd args) a
through c w a e = record { cmd = c; args = w; found = dispatch-typed c w; acts = e }

remote-through :
    (args : Option CString) (count size : ℕ)
    → remote_args args ≡ (count, size)
    → do_perf_remote args ≡ send 113 3001 (or_default count ∷ size ∷ [])
unfolding do_perf_remote
remote-through args count size e = ap (λ (p : ℕ × ℕ). send 113 3001 (or_default p.0 ∷ p.1 ∷ [])) e

-- The line of a use makes the command line do what the use means.
pub print-Runs : (u : Usage) → HasNumbers u → Runs (print u) (meaning u)
unfolding handler do_log log_spam do_perf_start do_perf_remote remote_args scan_u
print-Runs help h = through cmd_help none _ refl
print-Runs components h = through show_components none _ refl
print-Runs services h = through show_services none _ refl
print-Runs db h = through show_db none _ refl
print-Runs memory h = through show_memory none _ refl
print-Runs ipc h = through show_ipc none _ refl
print-Runs stats h = through show_stats none _ refl
print-Runs (stats_of []) h = through show_stats (some []) _ refl
print-Runs (stats_of (c ∷ s)) h = through show_stats (some (c ∷ s)) _ refl
print-Runs dropped h = through cmd_log (some (codes "stats")) _ refl
print-Runs (filter level) h =
    through cmd_log (some (codes "level " ++ level_word level)) _ (log_level-filter level)
print-Runs (filter_of n level) h =
    through cmd_log (some (codes "level " ++ chars n ++ space ∷ level_word level)) _
      (log_level-number n h level)
print-Runs spam h = through cmd_log (some (codes "spam")) _ refl
print-Runs (spam_of n) h = through cmd_log (some (codes "spam " ++ chars n)) _ (log_spam-number n h)
print-Runs perf h = through perf_start none _ refl
print-Runs (perf_of n) h = through perf_start (some (chars n)) _ (perf_start-number n h)
print-Runs remote h = through perf_remote none _ refl
print-Runs (remote_of n) h =
    through perf_remote (some (chars n)) _
      (remote-through (some (chars n)) _ _ (remote_args-number n h))
print-Runs (remote_sized n size) h =
    through perf_remote (some (chars n ++ space ∷ chars size)) _
      (remote-through (some (chars n ++ space ∷ chars size)) _ _ (remote_args-sized n h.0 size h.1))
print-Runs sweep h = through perf_remote (some (codes "sweep")) _ refl
print-Runs (sweep_of n) h =
    through perf_remote (some (codes "sweep " ++ chars n)) _
      (remote-through (some (codes "sweep " ++ chars n)) _ _ (remote_args-sweep n h))
print-Runs (load name) h = through cmd_load (some name) _ refl
print-Runs (reloads name) h = through cmd_reload (some name) _ refl
print-Runs (unloads name) h = through cmd_unload (some name) _ refl
print-Runs quits h = through cmd_quit none _ refl
