-- ===== src/Heap/Down.antt =====
-- `heapify_down` restores the heap order below a node, and `rebuild` that of a whole array.
use mathlib.Core.List.{Perm}
use mathlib.Core.List.Perm
use native.Mathlib.Numerals.{add-one}
use codex_nos.Base.{
  ℕ, zero, suc, ◌+◌, ◌-◌, ◌*◌, ◌/◌, ◌≤◌, ◌<◌, ◌≡◌, ◌≢◌, ◌⊎◌, refl, List, length, ltb, leb, arith,
  Bool-cases, inl, inr, true,
}
use codex_nos.Heap.{key_at, parent, exchange, smallest, down_loop, heapify_down, rebuild}
use codex_nos.Heap.Order.{
  length-exchange, node_at-exchange, exchange-perm, IsHeapFrom, IsHeap, Sifted,
}

module _ (key : ℕ → ℕ) where
  -- Only the edges from `i` to its children may be out of order.
  pub record Sinking (lo : ℕ) (nodes : List ℕ) (i : ℕ) : Type 0 where
    pub edges :
        (c : ℕ)
        → 0 < c
        → c < length nodes
        → lo ≤ parent c
        → parent c ≢ i
        → key_at key nodes (parent c) ≤ key_at key nodes c
    pub over :
        (c : ℕ)
        → 0 < c
        → c < length nodes
        → parent c ≡ i
        → 0 < i
        → lo ≤ parent i
        → key_at key nodes (parent i) ≤ key_at key nodes c

  -- `s` is the child of `i` that expires first.
  record IsSmallest (nodes : List ℕ) (i s : ℕ) : Type 0 where
    inside : s < length nodes
    child : (s ≡ i * 2 + 1) ⊎ (s ≡ i * 2 + 2)
    least :
        (c : ℕ) → 0 < c → c < length nodes → parent c ≡ i → key_at key nodes s ≤ key_at key nodes c

  smallest-IsSmallest :
      (nodes : List ℕ) (i : ℕ)
      → i * 2 + 1 < length nodes
      → IsSmallest nodes i (smallest key nodes i)
  unfolding smallest
  smallest-IsSmallest nodes i h = grind arith

  exchange-Sinking :
      (lo : ℕ) (nodes : List ℕ) (i s : ℕ)
      → Sinking lo nodes i
      → IsSmallest nodes i s
      → key_at key nodes s < key_at key nodes i
      → Sinking lo (exchange nodes i s) s
  exchange-Sinking lo nodes i s v m below =
      let size = length-exchange nodes i s in
      let at = node_at-exchange nodes i s (omega arith) m.inside in
      record {
        edges = λ c p q r t. ground (arith, at c, at (parent c), v.edges c, v.over s, m.least c);
        over = λ c p q r t u. ground (arith, at c, at (parent s), v.edges c);
      }

  down_loop-Sifted :
      (fuel lo : ℕ) (nodes : List ℕ) (i : ℕ)
      → length nodes - i < fuel
      → Sinking lo nodes i
      → Sifted key lo nodes (down_loop key fuel nodes i)
  unfolding down_loop
  down_loop-Sifted zero lo nodes i f v = absurd (omega arith)
  down_loop-Sifted (suc fuel) lo nodes i f v = elim (Bool-cases (ltb (i * 2 + 1) (length nodes))) [
    | inr leaf ↦ rw leaf ((λ c p q r. ground (arith, v.edges c)), Perm.refl nodes)
    | inl inner ↦
        let s = smallest key nodes i in
        let m : IsSmallest nodes i s = smallest-IsSmallest nodes i (ground arith) in
        elim (Bool-cases (leb (key_at key nodes i) (key_at key nodes s))) [
          | inl settled ↦
              rw (inner, settled)
                ((λ c p q r. ground (arith, v.edges c, m.least c)), Perm.refl nodes)
          | inr below ↦
              let (h, p) =
                down_loop-Sifted fuel lo (exchange nodes i s) s
                  (omega (arith, length-exchange nodes i s, m.child, m.inside))
                  (exchange-Sinking lo nodes i s v m (ground arith)) in
              rw (inner, below) (h, Perm.trans p (exchange-perm nodes i s (omega arith) m.inside))
        ]
  ]

  -- From a node below which the order holds, `heapify_down` restores it from there on.
  pub heapify_down-Sifted :
      (lo : ℕ) (nodes : List ℕ) (i : ℕ)
      → Sinking lo nodes i
      → Sifted key lo nodes (heapify_down key nodes i)
  unfolding heapify_down
  heapify_down-Sifted lo nodes i v = down_loop-Sifted (length nodes + 1) lo nodes i (omega arith) v

  -- A node that expires no later than its children stays where it is.
  pub heapify_down_settled :
      (nodes : List ℕ) (i : ℕ)
      → ((c : ℕ)
          → 0 < c
          → c < length nodes
          → parent c ≡ i
          → key_at key nodes i ≤ key_at key nodes c)
      → heapify_down key nodes i ≡ nodes
  unfolding heapify_down down_loop
  heapify_down_settled nodes i h = elim (Bool-cases (ltb (i * 2 + 1) (length nodes))) [
    | inr leaf ↦ rw (add-one, leaf) refl
    | inl inner ↦
        let m = smallest-IsSmallest nodes i (ground arith) in
        let stays : leb (key_at key nodes i) (key_at key nodes (smallest key nodes i)) ≡ true =
          ground (arith, h (smallest key nodes i), m.child, m.inside) in
        rw (add-one, inner, stays) refl
  ]

  rebuild-Sifted :
      (n : ℕ) (nodes : List ℕ) → IsHeapFrom key n nodes → Sifted key 0 nodes (rebuild key n nodes)
  unfolding rebuild
  rebuild-Sifted zero nodes h = (h, Perm.refl nodes)
  rebuild-Sifted (suc n) nodes h =
      let start : Sinking n nodes n = record {
        edges = λ c p q r ne. h c p q (omega arith);
        over = λ c p q e r t. absurd (omega arith);
      } in
      let (o, p) = heapify_down-Sifted n nodes n start in
      let (o', p') = rebuild-Sifted n (heapify_down key nodes n) o in (o', Perm.trans p' p)

  -- The loop from `size / 2 - 1` down makes a heap of any array.
  pub rebuild_correct :
      (nodes : List ℕ)
      → IsHeap key (rebuild key (length nodes / 2) nodes)
        × Perm (rebuild key (length nodes / 2) nodes) nodes
  rebuild_correct nodes = rebuild-Sifted (length nodes / 2) nodes (λ c p q r. absurd (omega arith))
