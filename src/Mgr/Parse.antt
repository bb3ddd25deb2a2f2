-- ===== src/Mgr/Parse.antt =====
-- src/mgr/nos_mgr_main.c, `trim`, and the tests of `handle_command` on the trimmed line.
pub mod Print
use codex_nos.Base.{
  ℕ, Bool, true, false, Option, none, some, List, [], ◌∷◌, ◌||◌, ◌==◌, if◌then◌else◌, CString,
  str_eq, strip_prefix, codes,
}

abbrev pub is_blank : ℕ → Bool
is_blank c = c == b' ' || c == 9

abbrev pub is_trailing : ℕ → Bool
is_trailing c = c == 10 || c == 13 || is_blank c

-- The first loop of `trim`.
abbrev pub drop_front : CString → CString
drop_front [] = []
drop_front (c ∷ s) = let rest = drop_front s in if is_blank c then rest else c ∷ s

-- The second loop, which cuts from the end.
abbrev pub drop_end : CString → CString
drop_end [] = []
drop_end (c ∷ s) = elim (drop_end s) [
  | [] ↦ if is_trailing c then [] else c ∷ []
  | d ∷ r ↦ c ∷ d ∷ r
]

-- `trim`
unfoldable pub trim : CString → CString
trim s = drop_end (drop_front s)

-- What `handle_command` makes of a line.
pub data Command : Type 0 where
  nothing help show_nodes quit : Command
  start stop restart unknown : CString → Command

abbrev pub on_prefix : Option CString → (CString → Command) → Command → Command
on_prefix none found other = other
on_prefix (some rest) found other = found (trim rest)

abbrev is_quit : CString → Bool
is_quit cmd = str_eq cmd (codes "quit") || str_eq cmd (codes "exit")

-- The chain of tests of `handle_command`.
unfoldable pub parse : CString → Command
parse line = elim (trim line) [
  | [] ↦ nothing
  | c ∷ s ↦
      let cmd : CString = c ∷ s in
      if str_eq cmd (codes "help")
      then help
      else if str_eq cmd (codes "show nodes")
      then show_nodes
      else on_prefix (strip_prefix (codes "start ") cmd) start (
          on_prefix (strip_prefix (codes "stop ") cmd) stop (
            on_prefix (strip_prefix (codes "restart ") cmd) restart
              (if is_quit cmd then quit else unknown cmd)))
]
