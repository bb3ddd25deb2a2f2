-- ===== src/Heap/Remove.antt =====
-- Removing the timer at an index: the last timer takes its place and sinks.
use mathlib.Core.List.{Perm, append-nil, perm_middle}
use mathlib.Core.List.Perm
use codex_nos.Base.{
  ℕ, zero, suc, ◌+◌, ◌-◌, ◌≤◌, ◌<◌, ◌≡◌, ◌⊎◌, refl, List, [], ◌∷◌, ◌++◌, length, length-set, get_or,
  get_or-set, set, take, length-take_le, take-suc, ◌==◌, if◌then◌else◌, arith, sym, ap, ◌∙◌,
}
use mathlib.Core.Path.{subst}
use codex_nos.Heap.{node_at, key_at, parent, heapify_down, heap_remove}
use codex_nos.Heap.Order.{set-perm, IsHeap}
use codex_nos.Heap.Down.{Sinking, heapify_down-Sifted, heapify_down_settled}

take_all : (nodes : List ℕ) (n : ℕ) → length nodes ≤ n → take n nodes ≡ nodes
take_all [] zero h = refl
take_all [] (suc n) h = refl
take_all (x ∷ nodes) zero h = absurd (omega arith)
take_all (x ∷ nodes) (suc n) h = rw (take_all nodes n (omega arith))

get_or-take :
    (n : ℕ) (nodes : List ℕ) (i : ℕ) → i < n → get_or (take n nodes) i 0 ≡ get_or nodes i 0
get_or-take zero nodes i h = absurd (omega arith)
get_or-take (suc n) [] i h = refl
get_or-take (suc n) (x ∷ nodes) zero h = refl
get_or-take (suc n) (x ∷ nodes) (suc i) h = get_or-take n nodes i (omega arith)

module _ (nodes : List ℕ) (i last : ℕ) (size : length nodes ≡ last + 1)
    (hi : i < length nodes) where
  -- The array before it sinks: entry `i` overwritten by the last, and the last cut off.
  abbrev pub cut : List ℕ
  cut = take last (set nodes i (node_at nodes last))

  pub length-cut : length cut ≡ last
  length-cut =
      length-take_le last (set nodes i (node_at nodes last))
        (omega (arith, length-set nodes i (node_at nodes last)))

  pub node_at-cut :
      (c : ℕ) → c < last → node_at cut c ≡ (if i == c then node_at nodes last else node_at nodes c)
  node_at-cut c h = ground (
    arith,
    get_or-take last (set nodes i (node_at nodes last)) c h,
    get_or-set nodes i c (node_at nodes last) 0 hi,
  )

  -- The other timers are kept.
  pub cut-perm : Perm (node_at nodes i ∷ cut) nodes
  cut-perm =
      let v = node_at nodes last in
      let whole : take (suc last) (set nodes i v) ≡ set nodes i v =
        take_all (set nodes i v) (suc last) (omega (arith, length-set nodes i v)) in
      let split : take (suc last) (set nodes i v) ≡ cut ++ node_at (set nodes i v) last ∷ [] =
        take-suc (set nodes i v) last 0 (omega (arith, length-set nodes i v)) in
      let v_last : node_at (set nodes i v) last ≡ v =
        ground (arith, get_or-set nodes i last v 0 hi) in
      let joined : set nodes i v ≡ cut ++ v ∷ [] =
        sym whole ∙ split ∙ ap (λ z. cut ++ z ∷ []) v_last in
      let moved : Perm (cut ++ v ∷ []) (v ∷ cut) =
        rw (append-nil cut) at (perm_middle {a = v} cut []) in
      let moved' : Perm (set nodes i v) (v ∷ cut) =
        subst (λ z. Perm z (v ∷ cut)) (sym joined) moved in
      let x = node_at nodes i in
      Perm.cons_inv (
        Perm.trans (Perm.swap x v cut)
          (Perm.trans (Perm.cons x (Perm.symm moved')) (set-perm nodes i v hi)))

module _ (key : ℕ → ℕ) where
  -- Whether the timer that moves to `i` may stand below the parent of `i`.
  abbrev pub FitsUnder : List ℕ → ℕ → Type 0
  FitsUnder nodes i =
      (i ≡ 0)
      ⊎ (i ≡ length nodes - 1)
      ⊎ (key_at key nodes (parent i) ≤ key_at key nodes (length nodes - 1))

  module _ (nodes : List ℕ) (i : ℕ) (h : IsHeap key nodes) (hi : i < length nodes) where
    -- Removing any timer of a heap keeps the others, and gives a heap if the timer that moves into
    -- its place expires no earlier than the new parent.
    pub heap_remove_correct :
        FitsUnder nodes i
        → IsHeap key (heap_remove key nodes i)
          × Perm (node_at nodes i ∷ heap_remove key nodes i) nodes
    unfolding heap_remove
    heap_remove_correct fit =
        let last = length nodes - 1 in
        let size : length nodes ≡ last + 1 = omega arith in
        let len = length-cut nodes i last size hi in
        let at = node_at-cut nodes i last size hi in
        let start : Sinking key 0 (cut nodes i last size hi) i = record {
          edges = λ c p q r ne. ground (arith, at c, at (parent c), h c, len, fit);
          over = λ c p q e r t. ground (arith, at c, at (parent i), h c, h i, len, fit);
        } in
        let (o, p) = heapify_down-Sifted key 0 (cut nodes i last size hi) i start in
        (o, Perm.trans (Perm.cons (node_at nodes i) p) (cut-perm nodes i last size hi))

    -- If the timer that moves into the place of an inner timer of a heap expires before the new
    -- parent, the result is not a heap.
    pub heap_remove_breaks :
        0 < i
        → i < length nodes - 1
        → key_at key nodes (length nodes - 1) < key_at key nodes (parent i)
        → ¬ IsHeap key (heap_remove key nodes i)
    unfolding heap_remove
    heap_remove_breaks pos inner bad heap =
        let last = length nodes - 1 in
        let size : length nodes ≡ last + 1 = omega arith in
        let len = length-cut nodes i last size hi in
        let at = node_at-cut nodes i last size hi in
        let stays : heapify_down key (cut nodes i last size hi) i ≡ cut nodes i last size hi =
          heapify_down_settled key (cut nodes i last size hi) i
            (λ c p q e. ground (arith, at c, at i, h c, h i, len)) in
        let heap' : IsHeap key (cut nodes i last size hi) = subst (IsHeap key) stays heap in
        absurd (ground (arith, heap' i, at i, at (parent i), len))
