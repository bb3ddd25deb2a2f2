-- ===== src/Heap/Order.antt =====
-- The heap order, and the exchange of two entries.
use mathlib.Core.List.{Perm}
use mathlib.Core.List.Perm
use codex_nos.Base.{
  ℕ, zero, suc, ◌≤◌, ◌<◌, ◌≡◌, List, [], ◌∷◌, length, length-set, set, get_or-set, ◌==◌,
  if◌then◌else◌, arith,
}
use codex_nos.Heap.{node_at, key_at, parent, exchange}

-- A write trades the old entry for the new one.
pub set-perm :
    (nodes : List ℕ) (i v : ℕ)
    → i < length nodes
    → Perm (node_at nodes i ∷ set nodes i v) (v ∷ nodes)
set-perm [] i v h = absurd (omega arith)
set-perm (x ∷ nodes) zero v h = Perm.swap v x nodes
set-perm (x ∷ nodes) (suc i) v h =
    Perm.trans (Perm.swap x (node_at nodes i) (set nodes i v))
      (Perm.trans (Perm.cons x (set-perm nodes i v (omega arith))) (Perm.swap v x nodes))

pub length-exchange : (nodes : List ℕ) (i j : ℕ) → length (exchange nodes i j) ≡ length nodes
unfolding exchange
length-exchange nodes i j = omega (
  arith,
  length-set nodes i (node_at nodes j),
  length-set (set nodes i (node_at nodes j)) j (node_at nodes i),
)

module _ (nodes : List ℕ) (i j : ℕ) (hi : i < length nodes) (hj : j < length nodes) where
  pub node_at-exchange :
      (c : ℕ)
      → node_at (exchange nodes i j) c
        ≡ (if j == c then node_at nodes i else if i == c then node_at nodes j else node_at nodes c)
  unfolding exchange
  node_at-exchange c = ground (
    arith,
    get_or-set nodes i c (node_at nodes j) 0 hi,
    get_or-set (set nodes i (node_at nodes j)) j c (node_at nodes i) 0
        (omega (arith, length-set nodes i (node_at nodes j))),
  )

  pub exchange-perm : Perm (exchange nodes i j) nodes
  unfolding exchange
  exchange-perm =
      let once = set nodes i (node_at nodes j) in
      let kept : node_at once j ≡ node_at nodes j =
        ground (arith, get_or-set nodes i j (node_at nodes j) 0 hi) in
      let second : Perm (node_at once j ∷ set once j (node_at nodes i)) (node_at nodes i ∷ once) =
        set-perm once j (node_at nodes i) (omega (arith, length-set nodes i (node_at nodes j))) in
      Perm.cons_inv (Perm.trans (rw kept at second) (set-perm nodes i (node_at nodes j) hi))

module _ (key : ℕ → ℕ) where
  -- Every node from the children of `lo` on expires no earlier than its parent.
  abbrev pub IsHeapFrom : ℕ → List ℕ → Type 0
  IsHeapFrom lo nodes =
      (c : ℕ)
      → 0 < c
      → c < length nodes
      → lo ≤ parent c
      → key_at key nodes (parent c) ≤ key_at key nodes c

  abbrev pub IsHeap : List ℕ → Type 0
  IsHeap = IsHeapFrom 0

  root_le_below :
      (k : ℕ) (nodes : List ℕ) (i : ℕ)
      → IsHeap nodes
      → i < k
      → i < length nodes
      → key_at key nodes 0 ≤ key_at key nodes i
  root_le_below zero nodes i h f p = absurd (omega arith)
  root_le_below (suc k) nodes i h f p = ground (arith, h i, root_le_below k nodes (parent i) h)

  -- No timer of a heap expires before the one at the root.
  pub root_le :
      (nodes : List ℕ) (i : ℕ)
      → IsHeap nodes
      → i < length nodes
      → key_at key nodes 0 ≤ key_at key nodes i
  root_le nodes i h p = root_le_below (suc i) nodes i h (omega arith) p

  -- `b` is in order from `lo` on, and has the timers of `a`.
  abbrev pub Sifted : ℕ → List ℕ → List ℕ → Type 0
  Sifted lo a b = IsHeapFrom lo b × Perm b a
