-- ===== src/Heap/Up.antt =====
-- `heapify_up` restores the heap order after an insertion at the end.
use mathlib.Core.List.{Perm, append-nil, perm_middle}
use mathlib.Core.List.Perm
use codex_nos.Base.{
  ℕ, zero, suc, ◌+◌, ◌≤◌, ◌<◌, ◌≡◌, ◌≢◌, List, [], ◌∷◌, ◌++◌, length, length-append, get_or-append,
  ltb, leb, arith, Bool-cases, inl, inr,
}
use codex_nos.Heap.{key_at, parent, exchange, up_loop, heap_push}
use codex_nos.Heap.Order.{length-exchange, node_at-exchange, exchange-perm, IsHeap, Sifted}

module _ (key : ℕ → ℕ) where
  -- Only the edge from `i` to its parent may be out of order.
  record Rising (nodes : List ℕ) (i : ℕ) : Type 0 where
    inside : i < length nodes
    edges :
        (c : ℕ)
        → 0 < c
        → c < length nodes
        → c ≢ i
        → key_at key nodes (parent c) ≤ key_at key nodes c
    over :
        (c : ℕ)
        → 0 < c
        → c < length nodes
        → parent c ≡ i
        → 0 < i
        → key_at key nodes (parent i) ≤ key_at key nodes c

  exchange-Rising :
      (nodes : List ℕ) (i : ℕ)
      → Rising nodes i
      → 0 < i
      → key_at key nodes i < key_at key nodes (parent i)
      → Rising (exchange nodes i (parent i)) (parent i)
  exchange-Rising nodes i v pos below =
      grind (arith, length-exchange nodes i (parent i), node_at-exchange nodes i (parent i))

  up_loop-Sifted :
      (fuel : ℕ) (nodes : List ℕ) (i : ℕ)
      → i < fuel
      → Rising nodes i
      → Sifted key 0 nodes (up_loop key fuel nodes i)
  unfolding up_loop
  up_loop-Sifted zero nodes i f v = absurd (omega arith)
  up_loop-Sifted (suc fuel) nodes i f v = elim (Bool-cases (ltb 0 i)) [
    | inr root ↦ rw root ((λ c p q r. v.edges c p q (ground arith)), Perm.refl nodes)
    | inl pos ↦ elim (Bool-cases (leb (key_at key nodes (parent i)) (key_at key nodes i))) [
      | inl settled ↦ rw (pos, settled) ((λ c p q r. ground (arith, v.edges c)), Perm.refl nodes)
      | inr below ↦
          let (h, p) =
            up_loop-Sifted fuel (exchange nodes i (parent i)) (parent i) (ground arith)
              (exchange-Rising nodes i v (ground arith) (ground arith)) in
          rw (pos, below)
            (h, Perm.trans p (exchange-perm nodes i (parent i) v.inside (omega (arith, v.inside))))
    ]
  ]

  append-Rising :
      (nodes : List ℕ) (t : ℕ) → IsHeap key nodes → Rising (nodes ++ t ∷ []) (length nodes)
  append-Rising nodes t h =
      let len : length (nodes ++ t ∷ []) ≡ length nodes + 1 = length-append nodes (t ∷ []) in
      let old = λ (c : ℕ). get_or-append nodes (t ∷ []) c 0 in
      record {
        inside = omega arith;
        edges = λ c p q ne. ground (arith, old c, old (parent c), h c);
        over = λ c p q e r. absurd (omega arith);
      }

  -- Starting a timer in a heap gives a heap of the old timers and the new one.
  pub heap_push_correct :
      (nodes : List ℕ) (t : ℕ)
      → IsHeap key nodes
      → IsHeap key (heap_push key nodes t) × Perm (heap_push key nodes t) (t ∷ nodes)
  unfolding heap_push
  heap_push_correct nodes t h =
      let (o, p) =
        up_loop-Sifted (length nodes + 1) (nodes ++ t ∷ []) (length nodes) (omega arith)
          (append-Rising nodes t h) in
      (o, Perm.trans p (rw (append-nil nodes) at (perm_middle {a = t} nodes [])))
