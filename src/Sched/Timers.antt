-- ===== src/Sched/Timers.antt =====
-- src/core/nos_scheduler.c, the timers: `nos_timer_create`, `nos_timer_start`, `nos_timer_stop`,
-- `nos_timer_delete`, `nos_scheduler_cancel_timers_by_owner` and the two locked parts of a round of
-- `process_timers`. A timer pointer is an index into the timers; `none` is a timer that is freed.
-- The clock readings are arguments. Sums of times stay below 2 ^ 64.
pub mod Keys
pub mod Start
pub mod Due
pub mod Cancel
use codex_nos.Base.{
  ℕ, zero, suc, ◌+◌, ◌-◌, ◌/◌, Bool, true, false, not, Option, none, some, List, [], ◌∷◌, ◌++◌,
  Status, ok, err, length, get_or, get_elem?, set, leb, ltb, ◌==◌, ◌&&◌, ◌||◌, if◌then◌else◌,
}
use codex_nos.Heap.{heap_push, heap_remove, rebuild, node_at}
use codex_nos.Sched.{Thread, notify, index_of, find_thread_of_component}

-- `struct nos_timer_s`
pub record Timer : Type 0 where
  pub expire_at_ms : ℕ
  pub interval_ms : ℕ
  pub is_periodic : Bool
  pub callback : Option ℕ
  pub free_arg : Option ℕ
  pub arg : ℕ
  pub is_running : Bool
  pub owner : Option ℕ
  pub owner_thread : Option ℕ

abbrev pub null_timer : Timer
null_timer = record {
  expire_at_ms = 0;
  interval_ms = 0;
  is_periodic = false;
  callback = none;
  free_arg = none;
  arg = 0;
  is_running = false;
  owner = none;
  owner_thread = none;
}

-- The timers, and the threads with their heaps.
pub record Clock : Type 0 where
  pub timers : List Timer
  pub threads : List Thread

abbrev pub timer_at : List Timer → ℕ → Timer
timer_at timers p = get_or timers p null_timer

-- `nodes[i]->expire_at_ms`
abbrev pub expiry : List Timer → ℕ → ℕ
expiry timers p = (timer_at timers p).expire_at_ms

-- `nos_timer_create`
unfoldable pub timer_create : Option ℕ → ℕ → Option ℕ → List Timer → ℕ × List Timer
timer_create cb arg free_arg timers = (
  length timers,
  timers ++ record null_timer { callback = cb; arg = arg; free_arg = free_arg } ∷ [],
)

-- `is_running = 0; owner = NULL; owner_thread = NULL;`
abbrev pub disowned : Timer → Timer
disowned w = record w { is_running = false; owner = none; owner_thread = none }

-- The start of timer `p` on thread `i`, whose heap has room.
abbrev pub started : ℕ → ℕ → ℕ → ℕ → ℕ → Bool → Timer → Timer
started now i self p interval periodic w = record w {
  interval_ms = interval;
  expire_at_ms = now + interval;
  is_periodic = periodic;
  is_running = true;
  owner = some self;
  owner_thread = some i;
}

-- `nos_timer_start`, its pointers not null.
unfoldable pub timer_start : ℕ → ℕ → ℕ → ℕ → Bool → Clock → Status × Clock
timer_start now self p interval periodic s =
    let w = timer_at s.timers p in
    elim (find_thread_of_component s.threads self) [
      | none ↦ (err, s)
      | some i ↦ elim (get_elem? s.threads i) [
        | none ↦ (err, s)
        | some t ↦
            let timers = set s.timers p (started now i self p interval periodic w) in
            if w.is_running || leb t.timer_capacity (length t.nodes) then (err, s) else (
              ok,
              record {
                timers = timers;
                threads =
                    set s.threads i
                      (notify (record t { nodes = heap_push (expiry timers) t.nodes p }));
              },
            )
      ]
    ]

-- The search for a timer in a heap, and its removal.
abbrev pub unlinked : List Timer → ℕ → Thread → Option Thread
unlinked timers p t = elim (index_of t.nodes p) [
  | none ↦ none
  | some i ↦ some (record t { nodes = heap_remove (expiry timers) t.nodes i })
]

-- `nos_timer_stop`, its timer not null.
unfoldable pub timer_stop : ℕ → ℕ → Clock → Status × Clock
timer_stop self p s =
    let w = timer_at s.timers p in
    let home : Option ℕ = elim w.owner_thread [
      | none ↦ find_thread_of_component s.threads self
      | some i ↦ some i
    ] in
    elim home [
      | none ↦ (err, s)
      | some i ↦ elim (get_elem? s.threads i) [
        | none ↦ (err, s)
        | some t ↦ elim (unlinked s.timers p t) [
          | none ↦ (err, s)
          | some t' ↦ if not w.is_running then (err, s) else (
            ok,
            record { timers = set s.timers p (disowned w); threads = set s.threads i t' },
          )
        ]
      ]
    ]

-- `nos_timer_delete`, its timer not null: the state in which it is freed, and the call of
-- `free_arg`.
unfoldable pub timer_delete : ℕ → Clock → Option (ℕ × ℕ) × Clock
timer_delete p s =
    let w = timer_at s.timers p in
    let threads : List Thread = elim w.owner_thread [
      | none ↦ s.threads
      | some i ↦ elim (get_elem? s.threads i) [
        | none ↦ s.threads
        | some t ↦ elim (unlinked s.timers p t) [
          | none ↦ s.threads
          | some t' ↦ if w.is_running then set s.threads i t' else s.threads
        ]
      ]
    ] in
    (
      elim w.free_arg [ none ↦ none | some f ↦ some (f, w.arg) ],
      record { timers = set s.timers p (disowned w); threads = threads },
    )

abbrev pub owned_by : ℕ → Timer → Bool
owned_by self w = elim w.owner [ none ↦ false | some o ↦ o == self ]

-- The compaction loop of `nos_scheduler_cancel_timers_by_owner`: the timers left, and the nodes
-- kept.
unfoldable pub cancel_loop : ℕ → List ℕ → List Timer → List Timer × List ℕ
cancel_loop self [] timers = (timers, [])
cancel_loop self (p ∷ nodes) timers =
    let w = timer_at timers p in
    let next = if owned_by self w then set timers p (disowned w) else timers in
    let (timers', kept) = cancel_loop self nodes next in
    (timers', if owned_by self w then kept else p ∷ kept)

-- `nos_scheduler_cancel_timers_by_owner`, its pointers not null.
unfoldable pub cancel_timers_by_owner : ℕ → List Timer → Thread → List Timer × Thread
unfolding cancel_loop
cancel_timers_by_owner self timers t =
    let (timers', kept) = cancel_loop self t.nodes timers in
    (timers', record t { nodes = rebuild (expiry timers') (length kept / 2) kept })

-- The first locked part of a round of `process_timers`: the timer that is due is taken out.
unfoldable pub take_due : ℕ → List Timer → Thread → Option ℕ × List Timer × Thread
take_due now timers t =
    let p = node_at t.nodes 0 in
    if length t.nodes == 0 || ltb now (expiry timers p) then (none, timers, t) else (
      some p,
      set timers p (record (timer_at timers p) { is_running = false }),
      record t { nodes = heap_remove (expiry timers) t.nodes 0 },
    )

-- The second: a periodic timer whose owner is active goes back into the heap, when there is room.
unfoldable pub restart : ℕ → (ℕ → Bool) → ℕ → List Timer → Thread → List Timer × Thread
restart now active p timers t =
    let w = timer_at timers p in
    let again = w.is_periodic && elim w.owner [ none ↦ false | some o ↦ active o ] in
    let late = set timers p (record w { expire_at_ms = now + w.interval_ms; is_running = false }) in
    let timers' =
      set timers p (record w { expire_at_ms = now + w.interval_ms; is_running = true }) in
    if not again
    then (timers, t)
    else if leb t.timer_capacity (length t.nodes)
    then (late, t)
    else (timers', record t { nodes = heap_push (expiry timers') t.nodes p })
