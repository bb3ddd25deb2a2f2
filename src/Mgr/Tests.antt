-- ===== src/Mgr/Tests.antt =====
-- A small system whose processes end when they get a signal, and the manager on it.
use codex_nos.Base.{
  map, ℕ, suc, ◌+◌, ◌<◌, ◌≡◌, refl, inl, inr, Bool, true, false, Option, none, some, List, [], ◌∷◌,
  ◌==◌, if◌then◌else◌, CString, codes, Option-cases, arith,
}
use codex_nos.Mgr.{
  refresh_nodes, init_nodes, refresh_node, start_refreshed, stop_refreshed, stop_wait, Os, Mgr,
  NodeDef, NodeState, find_node, fresh_node, node_running, node_stopped, start_node, stop_node,
  restart_node,
}
use codex_nos.Mgr.Parse.{parse, start, trim}
use codex_nos.Mgr.Parse.Print.{AllBlank, parse-print}
use codex_nos.Mgr.Commands.{Round, main}
use codex_nos.Mgr.Held.{one}
use codex_nos.Mgr.Children.{Kernel}
use codex_nos.Mgr.Session.{Tracks, main-Tracks}
use codex_nos.Mgr.Control.{IsStarted, restart_node_correct}

-- The children with a mark on those that have ended, and the last pid.
record Sys : Type 0 where
  kids : List (ℕ × Bool)
  last : ℕ

abbrev count : ℕ → List (ℕ × Bool) → ℕ
count q [] = 0
count q ((p, d) ∷ ps) = one p q + count q ps

abbrev mark : ℕ → List (ℕ × Bool) → List (ℕ × Bool)
mark p [] = []
mark p ((q, d) ∷ ps) = (q, if q == p then true else d) ∷ mark p ps

abbrev reap : ℕ → List (ℕ × Bool) → Option (List (ℕ × Bool))
reap p [] = none
reap p ((q, d) ∷ ps) =
    let rest : Option (List (ℕ × Bool)) = elim (reap p ps) [
      | none ↦ none
      | some r ↦ some ((q, d) ∷ r)
    ] in
    if q == p then (if d then some ps else none) else rest

abbrev without : ℕ → List (ℕ × Bool) → List (ℕ × Bool)
without p [] = []
without p ((q, d) ∷ ps) = let rest = without p ps in if q == p then ps else (q, d) ∷ rest

abbrev small_os : Os Sys
small_os = record {
  waitpid =
      λ p s. elim (reap p s.kids) [ none ↦ (none, s) | some r ↦ (some 0, record s { kids = r }) ];
  wait_for = λ p s. (9, record s { kids = without p s.kids });
  executable = λ path s. true;
  fork = λ s. (suc s.last, record { kids = (suc s.last, false) ∷ s.kids; last = suc s.last });
  kill = λ p sig s. (true, record s { kids = mark p s.kids });
  time = λ s. s.last;
  usleep = λ s. s;
}

abbrev children : Sys → ℕ → ℕ
children s q = count q s.kids

count-mark : (p : ℕ) (ps : List (ℕ × Bool)) (q : ℕ) → count q (mark p ps) ≡ count q ps
count-mark p [] q = refl
count-mark p ((r, d) ∷ ps) q = omega (arith, count-mark p ps q)

count-reap :
    (p : ℕ) (ps : List (ℕ × Bool)) (q : ℕ) {r : List (ℕ × Bool)}
    → reap p ps ≡ some r
    → count q ps ≡ count q r + one p q
count-reap p [] q e = cc
count-reap p ((k, d) ∷ ps) q e = elim (Option-cases (reap p ps)) [
  | inl z ↦ ground (arith, rw z at e)
  | inr (t, z) ↦ ground (arith, rw z at e, count-reap p ps q z)
]

count-without :
    (p : ℕ) (ps : List (ℕ × Bool)) (q : ℕ)
    → 0 < count p ps
    → count q ps ≡ count q (without p ps) + one p q
count-without p [] q h = absurd (omega arith)
count-without p ((k, d) ∷ ps) q h = ground (arith, count-without p ps q)

waitpid_child :
    (p : ℕ) (s : Sys) (q st : ℕ)
    → (small_os.waitpid p s).0 ≡ some st
    → children s q ≡ children (small_os.waitpid p s).1 q + one p q
waitpid_child p s q st e = elim (Option-cases (reap p s.kids)) [
  | inl z ↦ absurd (ground (arith, rw (z, small_os) at e))
  | inr (r, z) ↦ rw (z, small_os) (count-reap p s.kids q z)
]

waitpid_other :
    (p : ℕ) (s : Sys) (q : ℕ)
    → (small_os.waitpid p s).0 ≡ none
    → children (small_os.waitpid p s).1 q ≡ children s q
waitpid_other p s q e = elim (Option-cases (reap p s.kids)) [
  | inl z ↦ rw (z, small_os) refl
  | inr (r, z) ↦ absurd (ground (arith, rw (z, small_os) at e))
]

small_os-Kernel : Kernel small_os children
small_os-Kernel = record {
  fork_child = λ s q z. omega arith;
  fork_fails = λ s q z. absurd (omega arith);
  waitpid_some = λ p s q st e. waitpid_child p s q st e;
  waitpid_none = λ p s q e. waitpid_other p s q e;
  wait_for_child = λ p s q h. count-without p s.kids q h;
  kill_same = λ p sig s q. count-mark p s.kids q;
  usleep_same = λ s q. refl;
}

abbrev defs : List NodeDef
defs =
    record { name = codes "n1"; binary = codes "./n1"; uds_path = [] }
    ∷ record { name = codes "n2"; binary = codes "./n2"; uds_path = [] }
    ∷ []

abbrev empty : Sys
empty = record { kids = []; last = 40 }

abbrev typed : CString → Round
typed line = record { signalled = false; line = some line }

abbrev rounds : List Round
rounds =
    typed (codes " start n1 ")
    ∷ typed (codes "start n2")
    ∷ typed (codes "restart n1")
    ∷ typed (codes "stop n2")
    ∷ typed (codes "quit")
    ∷ []

rounds_end :
    map {B = ℕ × NodeState} (λ n. (n.pid, n.state)) (main small_os defs empty rounds).nodes
    ≡ (43, node_running) ∷ (0, node_stopped) ∷ []
unfolding main parse trim start_node refresh_nodes init_nodes refresh_node start_refreshed
    restart_node stop_node stop_refreshed stop_wait
rounds_end = refl

main-Tracks_example : Tracks small_os children small_os-Kernel (main small_os defs empty rounds)
main-Tracks_example = main-Tracks small_os children small_os-Kernel defs empty rounds (λ q. refl)

-- Two nodes, of which the first runs.
abbrev desk : Mgr Sys
desk = record {
  nodes =
      record {
        def = record { name = codes "n1"; binary = codes "./n1"; uds_path = [] };
        pid = 41;
        state = node_running;
        started_at = 41;
        exit_status = 0;
      }
      ∷ fresh_node (record { name = codes "n2"; binary = codes "./n2"; uds_path = [] })
      ∷ [];
  keep_running = true;
  sys = record { kids = (41, false) ∷ []; last = 41 };
  printed = [];
}

desk_find : find_node desk.nodes (codes "n1") ≡ some 0
unfolding find_node
desk_find = refl

restart_node_correct_example :
    IsStarted small_os
      (λ path s. refl)
      (λ s. omega arith)
      desk
      0
      (restart_node small_os (codes "n1") desk)
restart_node_correct_example =
    restart_node_correct small_os (λ path s. refl) (λ s. omega arith) (codes "n1") desk 0 desk_find
      refl (λ p sig s. refl)

parse-print_example : parse (codes "  start n1\n") ≡ start (codes "n1")
parse-print_example =
    parse-print (codes "  ") (codes "\n") (start (codes "n1")) (refl, two) (refl, tt) (refl, refl)
  where
    two : AllBlank (codes " ")
    two = (refl, tt)
