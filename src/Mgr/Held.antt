-- ===== src/Mgr/Held.antt =====
-- src/mgr/nos_mgr_main.c: nodes that agree with their pids, and the number of nodes with a pid.
use codex_nos.Base.{
  ℕ, zero, suc, ◌+◌, ◌≤◌, ◌<◌, ◌≡◌, refl, not, some, List, [], ◌∷◌, length, set, find_index-some,
  All, ◌==◌, if◌then◌else◌, CString, str_eq, arith,
}
use codex_nos.Mgr.{MgrNode, is_running, node_at, find_node}

abbrev pub one : ℕ → ℕ → ℕ
one p q = if p == q then 1 else 0

-- A node runs exactly if it has a pid.
abbrev pub Fits : MgrNode → Type 0
Fits n = is_running n.state ≡ not (n.pid == 0)

-- How many nodes have the pid `q`.
abbrev pub held : ℕ → List MgrNode → ℕ
held q [] = 0
held q (n ∷ ns) = one n.pid q + held q ns

pub held-set :
    (q : ℕ) (ns : List MgrNode) (i : ℕ) (n : MgrNode)
    → i < length ns
    → held q (set ns i n) + one (node_at ns i).pid q ≡ held q ns + one n.pid q
held-set q [] i n h = absurd (omega arith)
held-set q (m ∷ ns) zero n h = omega arith
held-set q (m ∷ ns) (suc i) n h = omega (arith, held-set q ns i n (omega arith))

pub one-le-held :
    (q : ℕ) (ns : List MgrNode) (i : ℕ) → i < length ns → one (node_at ns i).pid q ≤ held q ns
one-le-held q [] i h = absurd (omega arith)
one-le-held q (m ∷ ns) zero h = omega arith
one-le-held q (m ∷ ns) (suc i) h = omega (arith, one-le-held q ns i (omega arith))

pub one_self : (p : ℕ) → one p p ≡ 1
one_self p = ground arith

pub All-set :
    (ns : List MgrNode) (i : ℕ) (n : MgrNode) → All Fits ns → Fits n → All Fits (set ns i n)
All-set [] i n a f = tt
All-set (m ∷ ns) zero n a f = (f, a.1)
All-set (m ∷ ns) (suc i) n a f = (a.0, All-set ns i n a.1 f)

pub Fits-node_at : (ns : List MgrNode) (i : ℕ) → All Fits ns → Fits (node_at ns i)
Fits-node_at [] i a = refl
Fits-node_at (m ∷ ns) zero a = a.0
Fits-node_at (m ∷ ns) (suc i) a = Fits-node_at ns i a.1

pub find_node-lt :
    (nodes : List MgrNode) (name : CString) (i : ℕ)
    → find_node nodes name ≡ some i
    → i < length nodes
unfolding find_node
find_node-lt nodes [] i e = cc
find_node-lt nodes (c ∷ s) i e =
    (find_index-some (λ i. str_eq (node_at nodes i).def.name (c ∷ s)) (length nodes) i e).0
