-- ===== src/Cli/Bounds.antt =====
-- src/core/nos_cli.c, `advanced_get_line`: a line typed without completion fits the buffer.
use codex_nos.Base.{
  ℕ, zero, suc, ◌-◌, ◌≤◌, ◌<◌, ◌≡◌, refl, ap, inl, inr, false, none, some, List, [], ◌∷◌, ◌||◌,
  ◌&&◌, str_eq, length, length-append, length-take_le, length-take_bound, take, All, sym, ◌∙◌,
  if◌then◌else◌, ltb, ◌==◌, CString, Bool-cases, Option-cases, arith,
}
use mathlib.Core.Path.{subst}
use mathlib.Core.Option.{some-injective}
use codex_nos.Cli.{Entries, slot_at, history_add}
use codex_nos.Cli.History.{added}
use codex_nos.Cli.Editor.{
  Key, plain, up, escape, cut, Outcome, entered, full, broken, eof, Editor, finishes, is_enter,
  stop, key_step, get_line,
}

-- A key that asks for no completion.
abbrev pub IsTyping : Key → Type 0
IsTyping (plain c) = (c == 9) ≡ false
IsTyping up = Unit
IsTyping escape = Unit
IsTyping cut = Unit

-- The line that is read, and the 0 behind it if it was entered, fit 256 bytes.
abbrev pub Fits : Outcome → Type 0
Fits (entered line) = length line < 255
Fits (broken line) = length line < 255
Fits (full line) = length line ≡ 255
Fits eof = Unit

abbrev pub ShortSlots : List CString → Type 0
ShortSlots = All (λ s. length s ≤ 255)

slot_at-short : (slots : List CString) (i : ℕ) → ShortSlots slots → length (slot_at slots i) ≤ 255
slot_at-short [] i a = omega arith
slot_at-short (s ∷ ss) zero a = a.0
slot_at-short (s ∷ ss) (suc i) a = slot_at-short ss i a.1

module _ (comps : List CString) (h : Entries) (short : ShortSlots h.slots) where
  key_step-short :
      (k : Key) (e : Editor)
      → IsTyping k
      → length e.line < 255
      → length (key_step comps h k e).line ≤ 255
  unfolding key_step
  key_step-short (plain c) e t l = elim (Bool-cases (c == 127 || c == 8)) [
    | inl x ↦ rw x (omega (arith, length-take_le (length e.line - 1) e.line))
    | inr x ↦ rw (x, t) (omega (arith, length-append e.line (c ∷ [])))
  ]
  key_step-short up e t l = elim (Bool-cases (ltb e.shown h.count)) [
    | inl x ↦ rw x (slot_at-short h.slots e.shown short)
    | inr x ↦ rw x (omega arith)
  ]
  key_step-short escape e t l = omega arith
  key_step-short cut e t l = omega arith

  entered-Fits :
      (c : ℕ) (line : CString) (o : Outcome)
      → length line < 255
      → finishes (plain c) line ≡ some o
      → Fits o
  entered-Fits c line o l f = elim (Bool-cases (is_enter c)) [
    | inl x ↦
        subst Fits
          (some-injective (entered line) o
            (sym (ap (λ b. if b then some (entered line) else none) x) ∙ f))
          l
    | inr x ↦ absurd cc
  ]

  finishes-Fits :
      (k : Key) (line : CString) (o : Outcome)
      → length line < 255
      → finishes k line ≡ some o
      → Fits o
  finishes-Fits (plain c) line o l f = entered-Fits c line o l f
  finishes-Fits up line o l f = absurd cc
  finishes-Fits escape line o l f = absurd cc
  finishes-Fits cut line o l f = subst Fits (some-injective (broken line) o f) l

  stop-Fits :
      (k : Key) (e : Editor) (o : Outcome) → length e.line ≤ 255 → stop k e ≡ some o → Fits o
  stop-Fits k e o l f = elim (Bool-cases (ltb (length e.line) 255)) [
    | inl x ↦ finishes-Fits k e.line o (ground (arith, x)) cc
    | inr x ↦ subst Fits (some-injective (full e.line) o cc) (ground (arith, x))
  ]

  stop-short : (k : Key) (e : Editor) → stop k e ≡ none → length e.line < 255
  stop-short k e f = ground arith

  get_line-next :
      (k : Key) (ks : List Key) (e : Editor)
      → stop k e ≡ none
      → get_line comps h e (k ∷ ks) ≡ get_line comps h (key_step comps h k e) ks
  unfolding get_line
  get_line-next k ks e f = rw (get_line, f) refl

  get_line-stop :
      (k : Key) (ks : List Key) (e : Editor) (o : Outcome)
      → stop k e ≡ some o
      → get_line comps h e (k ∷ ks) ≡ o
  unfolding get_line
  get_line-stop k ks e o f = rw (get_line, f) refl

  get_line_fits :
      (ks : List Key) (e : Editor)
      → All IsTyping ks
      → length e.line ≤ 255
      → Fits (get_line comps h e ks)
  unfolding get_line
  get_line_fits [] e t l = elim (Bool-cases (ltb (length e.line) 255)) [
    | inl x ↦ rw x tt
    | inr x ↦ rw x (ground (arith, x))
  ]
  get_line_fits (k ∷ ks) e t l = elim (Option-cases (stop k e)) [
    | inr (o, f) ↦ subst Fits (sym (get_line-stop k ks e o f)) (stop-Fits k e o l f)
    | inl f ↦
        subst Fits (sym (get_line-next k ks e f))
          (get_line_fits ks (key_step comps h k e) t.1 (key_step-short k e t.0 (stop-short k e f)))
  ]

short-cons :
    (s : CString) (ss : List CString) → length s ≤ 255 → ShortSlots ss → ShortSlots (s ∷ ss)
short-cons s ss a b = (a, b)

short-three :
    (x y z : CString)
    → length x ≤ 255
    → length y ≤ 255
    → length z ≤ 255
    → ShortSlots (x ∷ y ∷ z ∷ [])
short-three x y z a b c =
    short-cons x (y ∷ z ∷ []) a (short-cons y (z ∷ []) b (short-cons z [] c tt))

history_add-Short :
    (cmd : CString) (h : Entries) → ShortSlots h.slots → ShortSlots (history_add cmd h).slots
unfolding history_add
history_add-Short [] h a = a
history_add-Short (c ∷ cmd) h a =
    elim (Bool-cases (ltb 0 h.count && str_eq (slot_at h.slots 0) (c ∷ cmd))) [
      | inl x ↦ rw x a
      | inr x ↦ rw x (
          short-three (take 255 (c ∷ cmd)) (slot_at h.slots 0) (slot_at h.slots 1)
            (length-take_bound 255 (c ∷ cmd)) (slot_at-short h.slots 0 a)
            (slot_at-short h.slots 1 a))
    ]

added-Short : (cmds : List CString) → ShortSlots (added cmds).slots
added-Short [] = short-three [] [] [] (omega arith) (omega arith) (omega arith)
added-Short (cmd ∷ cmds) = history_add-Short cmd (added cmds) (added-Short cmds)

abbrev pub start : Editor
start = record { line = []; shown = 0 }

-- Whatever keys but Tab are typed, and whatever commands are in the history, the reading of a line
-- ends with at most 254 bytes and room for the 0 behind them, with exactly 255 bytes, or at the end
-- of the input.
pub get_line_correct :
    (comps : List CString) (cmds : List CString) (ks : List Key)
    → All IsTyping ks
    → Fits (get_line comps (added cmds) start ks)
get_line_correct comps cmds ks t =
    get_line_fits comps (added cmds) (added-Short cmds) ks start t (omega arith)
