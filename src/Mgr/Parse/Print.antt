-- ===== src/Mgr/Parse/Print.antt =====
-- src/mgr/nos_mgr_main.c: a command that is typed as the help text says is understood.
use codex_nos.Base.{◌≡◌, refl, ap, ◌∙◌, true, false, [], ◌∷◌, ◌++◌, All, CString, codes}
use codex_nos.Mgr.Parse.{
  Command, nothing, help, show_nodes, quit, start, stop, restart, unknown, is_blank, is_trailing,
  drop_front, drop_end, trim, parse,
}

-- A word that `trim` leaves alone.
abbrev pub IsWord : CString → Type 0
IsWord [] = ⊥
IsWord (c ∷ s) = (is_blank c ≡ false) × (drop_end (c ∷ s) ≡ c ∷ s)

-- The way to type a command.
abbrev pub print : Command → CString
print nothing = []
print help = codes "help"
print show_nodes = codes "show nodes"
print quit = codes "quit"
print (start name) = codes "start " ++ name
print (stop name) = codes "stop " ++ name
print (restart name) = codes "restart " ++ name
print (unknown cmd) = cmd

-- The commands of the help text, with a word for a name.
abbrev pub IsTypable : Command → Type 0
IsTypable nothing = ⊥
IsTypable (unknown cmd) = ⊥
IsTypable (start name) = IsWord name
IsTypable (stop name) = IsWord name
IsTypable (restart name) = IsWord name
IsTypable help = Unit
IsTypable show_nodes = Unit
IsTypable quit = Unit

abbrev pub AllBlank : CString → Type 0
AllBlank = All (λ c. is_blank c ≡ true)

abbrev pub AllTrailing : CString → Type 0
AllTrailing = All (λ c. is_trailing c ≡ true)

drop_front-append : (pre s : CString) → AllBlank pre → drop_front (pre ++ s) ≡ drop_front s
drop_front-append [] s a = refl
drop_front-append (c ∷ pre) s a = rw (a.0) (drop_front-append pre s a.1)

drop_end_all : (post : CString) → AllTrailing post → drop_end post ≡ []
drop_end_all [] a = refl
drop_end_all (c ∷ post) a = rw (drop_end_all post a.1, a.0) refl

drop_end-append : (s post : CString) → AllTrailing post → drop_end (s ++ post) ≡ drop_end s
drop_end-append [] post a = drop_end_all post a
drop_end-append (c ∷ s) post a = rw (drop_end-append s post a) refl

drop_end-keeps : (xs s : CString) → IsWord s → drop_end (xs ++ s) ≡ xs ++ s
drop_end-keeps [] [] w = absurd w
drop_end-keeps [] (c ∷ s) w = w.1
drop_end-keeps (x ∷ xs) [] w = absurd w
drop_end-keeps (x ∷ []) (c ∷ s) w = rw (drop_end-keeps [] (c ∷ s) w) refl
drop_end-keeps (x ∷ y ∷ xs) (c ∷ s) w = rw (drop_end-keeps (y ∷ xs) (c ∷ s) w) refl

-- The blanks round a word are cut off.
trim_word :
    (pre s post : CString)
    → AllBlank pre
    → IsWord s
    → AllTrailing post
    → trim (pre ++ (s ++ post)) ≡ s
unfolding trim
trim_word pre [] post a w b = absurd w
trim_word pre (c ∷ s) post a w b =
    ap drop_end (drop_front-append pre ((c ∷ s) ++ post) a)
    ∙ (rw (w.0) (drop_end-append (c ∷ s) post b ∙ w.1))

trim_self : (s : CString) → IsWord s → trim s ≡ s
unfolding trim
trim_self [] w = absurd w
trim_self (c ∷ s) w = rw (w.0) w.1

print-IsWord : (c : Command) → IsTypable c → IsWord (print c)
print-IsWord nothing t = absurd t
print-IsWord help t = (refl, refl)
print-IsWord show_nodes t = (refl, refl)
print-IsWord quit t = (refl, refl)
print-IsWord (start name) t = (refl, drop_end-keeps (codes "start ") name t)
print-IsWord (stop name) t = (refl, drop_end-keeps (codes "stop ") name t)
print-IsWord (restart name) t = (refl, drop_end-keeps (codes "restart ") name t)
print-IsWord (unknown cmd) t = absurd t

-- A command of the help text, typed with a word for a name and with any blanks before it and any
-- blanks and line ends after it, is parsed as that command.
pub parse-print :
    (pre post : CString) (c : Command)
    → AllBlank pre
    → AllTrailing post
    → IsTypable c
    → parse (pre ++ (print c ++ post)) ≡ c
unfolding parse
parse-print pre post nothing a b t = absurd t
parse-print pre post (unknown cmd) a b t = absurd t
parse-print pre post help a b t =
    rw (parse, trim_word pre (print help) post a (print-IsWord help t) b) refl
parse-print pre post show_nodes a b t =
    rw (parse, trim_word pre (print show_nodes) post a (print-IsWord show_nodes t) b) refl
parse-print pre post quit a b t =
    rw (parse, trim_word pre (print quit) post a (print-IsWord quit t) b) refl
parse-print pre post (start name) a b t =
    rw (parse, trim_word pre (print (start name)) post a (print-IsWord (start name) t) b)
      (ap start (trim_self name t))
parse-print pre post (stop name) a b t =
    rw (parse, trim_word pre (print (stop name)) post a (print-IsWord (stop name) t) b)
      (ap stop (trim_self name t))
parse-print pre post (restart name) a b t =
    rw (parse, trim_word pre (print (restart name)) post a (print-IsWord (restart name) t) b)
      (ap restart (trim_self name t))
