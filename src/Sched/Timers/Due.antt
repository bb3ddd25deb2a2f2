-- ===== src/Sched/Timers/Due.antt =====
-- The rounds of `process_timers`: the timer taken out is the one that expires first.
use mathlib.Core.List.{Perm}
use mathlib.Core.List.Perm
use codex_nos.Base.{
  ℕ, ◌+◌, ◌≤◌, ◌<◌, ◌≡◌, refl, Bool, true, false, ◌||◌, ◌&&◌, Option, none, some, List, ◌∷◌, length,
  set, leb, ltb, ◌==◌, inl, inr, Bool-cases, if◌then◌else◌, arith,
}
use codex_nos.Heap.{heap_remove, node_at}
use codex_nos.Heap.Order.{IsHeap, root_le}
use codex_nos.Heap.Up.{heap_push_correct}
use codex_nos.Heap.Remove.{heap_remove_correct}
use codex_nos.Sched.{Thread, index_of}
use codex_nos.Sched.Timers.{Timer, timer_at, expiry, take_due, restart}
use codex_nos.Sched.Timers.Keys.{IsHeap-set, IsHeap-set_same}

-- The result of looking for a timer that is due at `now`.
abbrev pub DueSpec : ℕ → List Timer → Thread → Option ℕ × List Timer × Thread → Type 0
DueSpec now timers t (none, timers', t') =
    ((i : ℕ) → i < length t.nodes → now < expiry timers (node_at t.nodes i))
    × (timers' ≡ timers)
    × (t' ≡ t)
DueSpec now timers t (some p, timers', t') =
    (expiry timers p ≤ now)
    × ((i : ℕ) → i < length t.nodes → expiry timers p ≤ expiry timers (node_at t.nodes i))
    × (timers' ≡ set timers p (record (timer_at timers p) { is_running = false }))
    × IsHeap (expiry timers') t'.nodes
    × Perm (p ∷ t'.nodes) t.nodes

-- On a heap in order, a timer is taken exactly when one is due: it expires first of all, it is
-- marked as stopped, and the others stay a heap.
pub take_due_correct :
    (now : ℕ) (timers : List Timer) (t : Thread)
    → IsHeap (expiry timers) t.nodes
    → node_at t.nodes 0 < length timers
    → DueSpec now timers t (take_due now timers t)
unfolding take_due
take_due_correct now timers t heap inside =
    let p = node_at t.nodes 0 in
    let first = λ (i : ℕ). root_le (expiry timers) t.nodes i heap in
    elim (Bool-cases (length t.nodes == 0 || ltb now (expiry timers p))) [
      | inl e ↦ rw e ((λ i h. ground (arith, e, first i h)), refl, refl)
      | inr e ↦
          let some_node : 0 < length t.nodes = ground (arith, e) in
          let (o, q) = heap_remove_correct (expiry timers) t.nodes 0 heap some_node (inl refl) in
          rw e (
            ground (arith, e),
            (λ i h. first i h),
            refl,
            IsHeap-set_same timers (heap_remove (expiry timers) t.nodes 0) p
                (record (timer_at timers p) { is_running = false }) inside refl o,
            q,
          )
    ]

abbrev again : (ℕ → Bool) → Timer → Bool
again active w = w.is_periodic && elim w.owner [ none ↦ false | some o ↦ active o ]

-- Putting back a timer that is not in the heap, itself in order, after its callback keeps the heap
-- in order; the timer is in the heap again exactly when it is periodic, its owner is active and
-- there is room.
pub restart_correct :
    (now : ℕ) (active : ℕ → Bool) (p : ℕ) (timers : List Timer) (t : Thread)
    → IsHeap (expiry timers) t.nodes
    → index_of t.nodes p ≡ none
    → IsHeap (expiry (restart now active p timers t).0) (restart now active p timers t).1.nodes
      × Perm (restart now active p timers t).1.nodes (
          if again active (timer_at timers p) && ltb (length t.nodes) t.timer_capacity
          then p ∷ t.nodes
          else t.nodes)
unfolding restart
restart_correct now active p timers t heap fresh =
    let w = timer_at timers p in
    let late = record w { expire_at_ms = now + w.interval_ms; is_running = false } in
    let back = record w { expire_at_ms = now + w.interval_ms; is_running = true } in
    elim (Bool-cases (again active w)) [
      | inl a ↦ elim (Bool-cases (leb t.timer_capacity (length t.nodes))) [
        | inl e ↦
            let no_room : ltb (length t.nodes) t.timer_capacity ≡ false = ground (arith, e) in
            rw (a, e, no_room) (IsHeap-set timers t.nodes p late fresh heap, Perm.refl t.nodes)
        | inr e ↦
            let room : ltb (length t.nodes) t.timer_capacity ≡ true = ground (arith, e) in
            rw (a, e, room)
              (heap_push_correct (expiry (set timers p back)) t.nodes p
                (IsHeap-set timers t.nodes p back fresh heap))
      ]
      | inr a ↦ rw a (heap, Perm.refl t.nodes)
    ]
