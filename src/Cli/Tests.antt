-- ===== src/Cli/Tests.antt =====
-- src/core/nos_cli.c on concrete commands, lines and keys.
use codex_nos.Base.{
  true, All, ◌≡◌, ◌≤◌, ◌<◌, refl, some, List, [], ◌∷◌, ◌++◌, length, replicate, map, CString, codes,
  arith,
}
use codex_nos.Log.{Level, warn}
use codex_nos.Cli.{show_db, no_history}
use codex_nos.Cli.Actions.{
  stale_read, overflow, none_at_all, send, unload, show, reload, quit, remote_args, log_level,
  set_comp_level,
}
use codex_nos.Cli.Editor.{complete, decode, get_line, entered}
use codex_nos.Cli.History.{added, view, recent, history-eq}
use codex_nos.Cli.Overflow.{show_line, complete_overflows}
use codex_nos.Cli.Bounds.{start}
use codex_nos.Cli.Thread.{thread_entry}
use codex_nos.Cli.Numbers.Decimal.{IsNumber}
use codex_nos.Cli.Usage.{
  Usage, help, db, filter_of, remote_sized, unloads, reloads, quits, print, visible, HasNumbers,
  IsTypable,
}
use codex_nos.Cli.Session.{line_of, thread_entry-typed}

-- `help` twice, three other commands, and `help` again.
abbrev lines : List CString
lines =
    codes "help"
    ∷ codes "quit"
    ∷ codes "show db"
    ∷ codes "log stats"
    ∷ codes "help"
    ∷ codes "help"
    ∷ []

history-eq_example : added lines ≡ view (recent lines)
history-eq_example = history-eq lines

slots_run : (added lines).slots ≡ codes "help" ∷ codes "quit" ∷ codes "show db" ∷ []
unfolding codex_nos.Cli.history_add
slots_run = refl

abbrev uses : List Usage
uses =
    db
    ∷ filter_of (7 ∷ []) warn
    ∷ remote_sized (5 ∷ 0 ∷ 0 ∷ []) (6 ∷ 4 ∷ [])
    ∷ unloads (codes "Comp-1")
    ∷ reloads (codes "Comp-1")
    ∷ quits
    ∷ help
    ∷ []

both : {P Q : Type 0} → P → Q → P × Q
both p q = (p, q)

seven-IsNumber : IsNumber (7 ∷ [])
seven-IsNumber = record {
  some_digit = omega arith;
  few = omega arith;
  decimal = (omega arith, tt);
  small = omega arith;
}

count-IsNumber : IsNumber (5 ∷ 0 ∷ 0 ∷ [])
count-IsNumber = record {
  some_digit = omega arith;
  few = omega arith;
  decimal = both (omega arith) (both (omega arith) (both (omega arith) tt));
  small = omega arith;
}

size-IsNumber : IsNumber (6 ∷ 4 ∷ [])
size-IsNumber = record {
  some_digit = omega arith;
  few = omega arith;
  decimal = both (omega arith) (both (omega arith) tt);
  small = omega arith;
}

typable :
    (u : Usage) → HasNumbers u → length (print u) < 255 → visible (print u) ≡ true → IsTypable u
typable u n l v = record { numbers = n; fits = l; plain_text = v }

uses-IsTypable : All IsTypable uses
uses-IsTypable = both (typable db tt (omega arith) refl) (
    both (typable (filter_of (7 ∷ []) warn) seven-IsNumber (omega arith) refl) (
      both
        (typable (remote_sized (5 ∷ 0 ∷ 0 ∷ []) (6 ∷ 4 ∷ [])) (count-IsNumber, size-IsNumber)
          (omega arith) refl)
        (both (typable (unloads (codes "Comp-1")) tt (omega arith) refl) (
          both (typable (reloads (codes "Comp-1")) tt (omega arith) refl) (
            both (typable quits tt (omega arith) refl)
              (both (typable help tt (omega arith) refl) tt))))))

thread_entry-typed_example :
    (thread_entry (map (line_of [] no_history) uses) no_history).1
    ≡ show show_db
      ∷ set_comp_level 7 warn
      ∷ send 113 3001 (500 ∷ 64 ∷ [])
      ∷ unload (codes "Comp-1")
      ∷ reload (codes "Comp-1")
      ∷ quit
      ∷ []
thread_entry-typed_example = thread_entry-typed [] no_history no_history uses uses-IsTypable

lines_run :
    (thread_entry
      (codes "log level" ∷ codes "show  db" ∷ codes "quit" ∷ codes "help" ∷ [])
      no_history).1
    ≡ stale_read ∷ none_at_all ∷ quit ∷ []
unfolding thread_entry codex_nos.Cli.dispatch codex_nos.Cli.Actions.handler
lines_run = refl

long_word_run : log_level (replicate 64 b'x') ≡ overflow
unfolding log_level codex_nos.Cli.Numbers.scan_s
long_word_run = refl

abbrev filler : CString
filler = replicate 240 b'x'

complete_overflows_example :
    (length (show_line filler) < 255) × (256 ≤ length (complete [] (show_line filler)))
complete_overflows_example = complete_overflows [] filler (omega arith) (omega arith)

completion_run :
    get_line [] no_history start (decode (codes "show com" ++ (9 ∷ 10 ∷ [])))
    ≡ entered (codes "show components")
unfolding get_line decode complete
completion_run = refl

remote_run : remote_args (some (codes "500 64")) ≡ (500, 64)
unfolding remote_args codex_nos.Cli.Numbers.scan_u
remote_run = refl

level_run : log_level (codes " 7 warn") ≡ set_comp_level 7 Level.warn
unfolding log_level codex_nos.Cli.Numbers.scan_s codex_nos.Cli.Numbers.atoi
    codex_nos.Cli.Numbers.case_eq
level_run = refl
