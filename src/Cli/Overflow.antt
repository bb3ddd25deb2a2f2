-- ===== src/Cli/Overflow.antt =====
-- src/core/nos_cli.c, `handle_tab_completion`: nothing checks that a suggestion fits the buffer.
use codex_nos.Base.{
  ℕ, ◌+◌, ◌≤◌, ◌<◌, ◌≡◌, refl, ap, none, some, List, [], ◌∷◌, ◌++◌, length, length-append, CString,
  codes, arith,
}
use codex_nos.Cli.{space}
use codex_nos.Cli.Editor.{last_word, by_word, completed, complete}

last_word-append : (ys w : CString) → last_word w ≡ none → last_word (ys ++ (space ∷ w)) ≡ some w
last_word-append [] w e = rw e refl
last_word-append (y ∷ ys) w e = rw (last_word-append ys w e) refl

-- A line that asks for `show components`, with any bytes between.
abbrev pub show_line : CString → CString
show_line xs = codes "show  " ++ (xs ++ codes " co")

show_line-complete :
    (comps : List CString) (xs : CString)
    → complete comps (show_line xs) ≡ show_line xs ++ codes "mponents"
unfolding complete
show_line-complete comps xs =
    let e : last_word (show_line xs) ≡ some (codes "co") =
      last_word-append (codes "show  " ++ xs) (codes "co") refl in
    ap (λ w. completed (show_line xs) (by_word comps (show_line xs) w)) e

length-show_line : (xs : CString) → length (show_line xs) ≡ length xs + 9
length-show_line xs = omega (arith, length-append xs (codes " co"))

-- A line of `show`, two spaces, 239 to 245 bytes of any kind, a space and `co` fits the buffer and
-- is still read on, but its completion has at least 256 bytes, and does not fit with the 0 behind
-- it.
pub complete_overflows :
    (comps : List CString) (xs : CString)
    → 239 ≤ length xs
    → length xs ≤ 245
    → (length (show_line xs) < 255) × (256 ≤ length (complete comps (show_line xs)))
complete_overflows comps xs h k = (
  omega (arith, length-show_line xs),
  omega (
    arith,
    length-show_line xs,
    length-append (show_line xs) (codes "mponents"),
    ap (length {A = ℕ}) (show_line-complete comps xs),
  ),
)
