-- ===== src/Cli/History.antt =====
-- src/core/nos_cli.c, `history_add`: the history is the last three different commands.
use codex_nos.Base.{
  ◌≡◌, refl, ap, ◌∙◌, inl, inr, Bool, false, List, [], ◌∷◌, ◌++◌, length, take, ltb, if◌then◌else◌,
  CString, str_eq, strncpy, Bool-cases, arith,
}
use codex_nos.Cli.{Entries, no_history, history_add}

abbrev heads : CString → List CString → Bool
heads cmd [] = false
heads cmd (x ∷ l) = str_eq x cmd

-- A command on top of a list, unless it is empty or on top already.
abbrev pub push : CString → List CString → List CString
push [] l = l
push (c ∷ cmd) l = if heads (c ∷ cmd) l then l else strncpy 255 (c ∷ cmd) ∷ l

-- The commands of a session, the last first, without repetitions of the one before.
abbrev pub recent : List CString → List CString
recent [] = []
recent (cmd ∷ cmds) = push cmd (recent cmds)

-- The array that holds the three newest of a list.
abbrev pub view : List CString → Entries
view l = record {
  slots = take 3 (l ++ [] ∷ [] ∷ [] ∷ []);
  count = if ltb (length l) 3 then length l else 3;
}

-- `history_add` for each command, the last first.
abbrev pub added : List CString → Entries
added [] = no_history
added (cmd ∷ cmds) = history_add cmd (added cmds)

history_add-view : (cmd : CString) (l : List CString) → history_add cmd (view l) ≡ view (push cmd l)
unfolding history_add
history_add-view [] l = refl
history_add-view (c ∷ cmd) [] = refl
history_add-view (c ∷ cmd) (x ∷ []) = elim (Bool-cases (str_eq x (c ∷ cmd))) [
  | inl e ↦ rw e refl
  | inr e ↦ rw e refl
]
history_add-view (c ∷ cmd) (x ∷ y ∷ []) = elim (Bool-cases (str_eq x (c ∷ cmd))) [
  | inl e ↦ rw e refl
  | inr e ↦ rw e refl
]
history_add-view (c ∷ cmd) (x ∷ y ∷ z ∷ l) =
    let few : ltb (length (x ∷ y ∷ z ∷ l)) 3 ≡ false = ground arith in
    let more : ltb (length ((c ∷ take 254 cmd) ∷ x ∷ y ∷ z ∷ l)) 3 ≡ false = ground arith in
    elim (Bool-cases (str_eq x (c ∷ cmd))) [
      | inl e ↦ rw (e, few) refl
      | inr e ↦ rw (few, e, more) refl
    ]

-- The history after any commands holds the three newest entries of the list that takes each command
-- in turn, cut to 255 bytes, in front, unless it is empty or equals the newest entry; and it counts
-- the entries of that list, up to three.
pub history-eq : (cmds : List CString) → added cmds ≡ view (recent cmds)
history-eq [] = refl
history-eq (cmd ∷ cmds) =
    ap (history_add cmd) (history-eq cmds) ∙ history_add-view cmd (recent cmds)
