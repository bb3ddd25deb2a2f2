-- ===== src/Cli/Session.antt =====
-- src/core/nos_cli.c, `node_cli_thread_entry` with `advanced_get_line`: a session of commands, from
-- the keys to what they ask for.
use mathlib.Core.Option.{none-ne-some}
use codex_nos.Base.{
  ℕ, ◌+◌, ◌<◌, ◌≡◌, refl, sym, ap, ◌∙◌, inl, inr, true, false, ◌||◌, ltb, ◌==◌, none, List, [], ◌∷◌,
  ◌++◌, length, length-append, map, All, CString, Bool-cases, if◌then◌else◌, arith,
}
use codex_nos.Cli.{Entries, history_add, dispatch}
use codex_nos.Cli.Editor.{
  Key, plain, Outcome, entered, full, broken, eof, Editor, key_step, get_line, is_enter,
}
use codex_nos.Cli.Bounds.{start}
use codex_nos.Cli.Actions.{Action}
use codex_nos.Cli.Thread.{action_of, goes_on, run_line, thread_entry}
use codex_nos.Cli.Usage.{
  Usage, help, components, services, db, memory, ipc, stats, stats_of, dropped, filter, filter_of,
  spam, spam_of, perf, perf_of, remote, remote_of, remote_sized, sweep, sweep_of, load, reloads,
  unloads, quits, print, meaning, asked, visible, IsTypable,
}
use codex_nos.Cli.Usage.Asks.{Runs, print-Runs}

-- The keys of a line: its characters and Enter.
abbrev pub keys : CString → List Key
keys s = map plain s ++ plain 10 ∷ []

-- The line that was read, if Enter ended it.
abbrev pub read : Outcome → CString
read (entered line) = line
read (full line) = []
read (broken line) = []
read eof = []

module _ (comps : List CString) (h : Entries) where
  -- The line that the editor reads of the keys of a use.
  abbrev pub line_of : Usage → CString
  line_of u = read (get_line comps h start (keys (print u)))

  append-snoc : (s : CString) (c : ℕ) (t : CString) → (s ++ c ∷ []) ++ t ≡ s ++ c ∷ t
  append-snoc [] c t = refl
  append-snoc (x ∷ s) c t = ap (λ r. x ∷ r) (append-snoc s c t)

  append-none : (s : CString) → s ++ [] ≡ s
  append-none [] = refl
  append-none (x ∷ s) = ap (λ r. x ∷ r) (append-none s)

  -- A line of visible characters that fits is read as it is typed.
  get_line-keys :
      (s : CString) (e : Editor)
      → visible s ≡ true
      → length e.line + length s < 255
      → get_line comps h e (keys s) ≡ entered (e.line ++ s)
  unfolding get_line key_step
  get_line-keys [] e v l =
      let room : ltb (length e.line) 255 ≡ true = ground arith in
      rw (get_line, room, append-none e.line) refl
  get_line-keys (c ∷ s) e v l =
      let room : ltb (length e.line) 255 ≡ true = ground arith in
      let no_enter : is_enter c ≡ false = ground arith in
      let no_back : (c == 127 || c == 8) ≡ false = ground arith in
      let no_tab : (c == 9) ≡ false = ground arith in
      let rest_visible : visible s ≡ true = ground arith in
      let next : Editor = record e { line = e.line ++ c ∷ [] } in
      let fits : length next.line + length s < 255 =
        omega (arith, length-append e.line (c ∷ []), l) in
      rw (get_line, room, no_enter, no_back, no_tab)
        (get_line-keys s next rest_visible fits ∙ ap entered (append-snoc e.line c s))

  pub line_of-eq : (u : Usage) → IsTypable u → line_of u ≡ print u
  line_of-eq u t = ap read (get_line-keys (print u) start t.plain_text (omega (arith, t.fits)))

asked-cons :
    (u : Usage) (us : List Usage)
    → asked (u ∷ us) ≡ (if goes_on (meaning u) then meaning u ∷ asked us else meaning u ∷ [])
asked-cons help us = refl
asked-cons components us = refl
asked-cons services us = refl
asked-cons db us = refl
asked-cons memory us = refl
asked-cons ipc us = refl
asked-cons stats us = refl
asked-cons (stats_of []) us = refl
asked-cons (stats_of (c ∷ s)) us = refl
asked-cons dropped us = refl
asked-cons (filter level) us = refl
asked-cons (filter_of n level) us = refl
asked-cons spam us = refl
asked-cons (spam_of n) us = refl
asked-cons perf us = refl
asked-cons (perf_of n) us = refl
asked-cons remote us = refl
asked-cons (remote_of n) us = refl
asked-cons (remote_sized n size) us = refl
asked-cons sweep us = refl
asked-cons (sweep_of n) us = refl
asked-cons (load name) us = refl
asked-cons (reloads name) us = refl
asked-cons (unloads name) us = refl
asked-cons quits us = refl

dispatch-empty : dispatch [] ≡ none
unfolding dispatch
dispatch-empty = refl

thread_entry-cons :
    (line : CString) (lines : List CString) (h : Entries) (a : Action)
    → Runs line a
    → (thread_entry (line ∷ lines) h).1
      ≡ (if goes_on a then a ∷ (thread_entry lines (history_add line h)).1 else a ∷ [])
unfolding thread_entry run_line
thread_entry-cons [] lines h a r =
    absurd (none-ne-some (r.cmd, r.args) (sym dispatch-empty ∙ r.found))
thread_entry-cons (c ∷ line) lines h a r =
    let acts : action_of (dispatch (c ∷ line)) ≡ a = ap action_of r.found ∙ r.acts in
    elim (Bool-cases (goes_on a)) [ inl x ↦ rw (acts, x) refl | inr x ↦ rw (acts, x) refl ]

thread_entry-end : (h : Entries) → (thread_entry [] h).1 ≡ []
unfolding thread_entry
thread_entry-end h = refl

-- A session of commands, each typed key by key with Enter behind it, as visible characters on a line
-- of at most 254, in one of the forms of the help and usage texts, with numbers of at most 63 digits
-- below 2^32, does exactly what each command means, in order, up to the first `quit`.
pub thread_entry-typed :
    (comps : List CString) (g h : Entries) (us : List Usage)
    → All IsTypable us
    → (thread_entry (map (line_of comps g) us) h).1 ≡ asked us
thread_entry-typed comps g h [] t = thread_entry-end h
thread_entry-typed comps g h (u ∷ us) t =
    let rest = map (line_of comps g) us in
    let ran = print-Runs u t.0.numbers in
    ap (λ line. (thread_entry (line ∷ rest) h).1) (line_of-eq comps g u t.0)
    ∙ thread_entry-cons (print u) rest h (meaning u) ran
    ∙ ap (λ acts. if goes_on (meaning u) then meaning u ∷ acts else meaning u ∷ [])
        (thread_entry-typed comps g (history_add (print u) h) us t.1)
    ∙ sym (asked-cons u us)
