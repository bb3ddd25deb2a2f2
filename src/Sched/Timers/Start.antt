-- ===== src/Sched/Timers/Start.antt =====
-- `nos_timer_start`: the timer is added to the heap of its component's thread.
use mathlib.Core.List.{Perm}
use codex_nos.Base.{
  ℕ, ◌≡◌, refl, Bool, ◌||◌, none, some, List, ◌∷◌, Status, ok, err, length, get_elem?, set, leb,
  inl, inr, Bool-cases, if◌then◌else◌,
}
use codex_nos.Heap.{heap_push}
use codex_nos.Heap.Order.{IsHeap}
use codex_nos.Heap.Up.{heap_push_correct}
use codex_nos.Sched.{Thread, notify, index_of, find_thread_of_component}
use codex_nos.Sched.Timers.{Clock, timer_at, expiry, started, timer_start}
use codex_nos.Sched.Timers.Keys.{IsHeap-set}

-- What starting timer `p` on thread `i` (`t`) does: nothing, when the timer runs or the heap is
-- full; else the timer is written, and the new heap has it and the timers of the old one.
abbrev pub StartSpec : ℕ → ℕ → ℕ → ℕ → Bool → Clock → ℕ → Thread → Status × Clock → Type 0
StartSpec now self p interval periodic s i t r =
    if (timer_at s.timers p).is_running || leb t.timer_capacity (length t.nodes)
    then r ≡ (err, s)
    else (r.0 ≡ ok)
      × (r.1.timers ≡ set s.timers p (started now i self p interval periodic (timer_at s.timers p)))
      × ((nodes : List ℕ) × (r.1.threads ≡ set s.threads i (notify (record t { nodes = nodes })))
          × IsHeap (expiry r.1.timers) nodes
          × Perm nodes (p ∷ t.nodes))

-- Starting a timer that is not in the heap, itself in order, of its component's thread changes
-- nothing when the timer runs or the heap is full; else the timer is written, the thread is
-- notified, and the new heap is in order and has it and the timers of the old one.
pub timer_start_correct :
    (now self p interval : ℕ) (periodic : Bool) (s : Clock) (i : ℕ) (t : Thread)
    → find_thread_of_component s.threads self ≡ some i
    → get_elem? s.threads i ≡ some t
    → index_of t.nodes p ≡ none
    → IsHeap (expiry s.timers) t.nodes
    → StartSpec now self p interval periodic s i t (timer_start now self p interval periodic s)
unfolding timer_start
timer_start_correct now self p interval periodic s i t found here fresh heap =
    let w = timer_at s.timers p in
    let timers = set s.timers p (started now i self p interval periodic w) in
    let (o, q) =
      heap_push_correct (expiry timers) t.nodes p
        (IsHeap-set s.timers t.nodes p (started now i self p interval periodic w) fresh heap) in
    elim (Bool-cases (w.is_running || leb t.timer_capacity (length t.nodes))) [
      | inl e ↦ rw (timer_start, found, here, e) refl
      | inr e ↦
          rw (timer_start, found, here, e)
            (refl, refl, (heap_push (expiry timers) t.nodes p, refl, o, q))
    ]
