-- ===== src/Sched/Timers/Keys.antt =====
-- Writes to timers that a heap does not hold keep it a heap.
use codex_nos.Base.{
  ℕ, zero, suc, ◌<◌, ◌≡◌, ◌≢◌, ap, none, List, [], ◌∷◌, length, set, get_or-set, get_or-set_ne, sym,
  inl, inr, Bool-cases, ◌==◌, Option-cases, arith,
}
use codex_nos.Heap.{node_at, parent}
use codex_nos.Heap.Order.{IsHeap}
use codex_nos.Sched.{index_of}
use codex_nos.Sched.Timers.{Timer, null_timer, expiry}

pub IsHeap-of_agree :
    (k k' : ℕ → ℕ) (nodes : List ℕ)
    → ((i : ℕ) → i < length nodes → k (node_at nodes i) ≡ k' (node_at nodes i))
    → IsHeap k nodes
    → IsHeap k' nodes
IsHeap-of_agree k k' nodes same h c pos inside lo =
    omega (arith, h c pos inside lo, same c inside, same (parent c) (omega arith))

pub tail_none :
    (q : ℕ) (nodes : List ℕ) (p : ℕ) → index_of (q ∷ nodes) p ≡ none → index_of nodes p ≡ none
tail_none q nodes p e = elim (Option-cases (index_of nodes p)) [
  | inl n ↦ n
  | inr (j, n) ↦ absurd (ground (arith, e, n))
]

pub head_ne : (q : ℕ) (nodes : List ℕ) (p : ℕ) → index_of (q ∷ nodes) p ≡ none → q ≢ p
head_ne q nodes p e r = absurd (ground (arith, e, r))

pub not_here :
    (nodes : List ℕ) (p i : ℕ) → index_of nodes p ≡ none → i < length nodes → node_at nodes i ≢ p
not_here [] p i e h = absurd (omega arith)
not_here (q ∷ nodes) p zero e h = λ r. ground (arith, e, r)
not_here (q ∷ nodes) p (suc i) e h = not_here nodes p i (tail_none q nodes p e) (omega arith)

pub expiry-set_same :
    (timers : List Timer) (p q : ℕ) (w : Timer)
    → p < length timers
    → w.expire_at_ms ≡ expiry timers p
    → expiry (set timers p w) q ≡ expiry timers q
expiry-set_same timers p q w inside e = elim (Bool-cases (p == q)) [
  | inl same ↦ ground (arith, get_or-set timers p q w null_timer inside, e)
  | inr other ↦ ground (arith, get_or-set timers p q w null_timer inside)
]

-- A write to a timer that is not in the heap.
pub IsHeap-set :
    (timers : List Timer) (nodes : List ℕ) (p : ℕ) (w : Timer)
    → index_of nodes p ≡ none
    → IsHeap (expiry timers) nodes
    → IsHeap (expiry (set timers p w)) nodes
IsHeap-set timers nodes p w e =
    IsHeap-of_agree (expiry timers) (expiry (set timers p w)) nodes (λ i h.
      ap (λ (x : Timer). x.expire_at_ms)
        (sym (
          get_or-set_ne timers p (node_at nodes i) w null_timer
            (λ r. not_here nodes p i e h (sym r)))))

-- A write that keeps the time of the timer.
pub IsHeap-set_same :
    (timers : List Timer) (nodes : List ℕ) (p : ℕ) (w : Timer)
    → p < length timers
    → w.expire_at_ms ≡ expiry timers p
    → IsHeap (expiry timers) nodes
    → IsHeap (expiry (set timers p w)) nodes
IsHeap-set_same timers nodes p w inside e =
    IsHeap-of_agree (expiry timers) (expiry (set timers p w)) nodes
      (λ i h. sym (expiry-set_same timers p (node_at nodes i) w inside e))
