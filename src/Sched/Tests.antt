-- ===== src/Sched/Tests.antt =====
-- The properties of the threads at a thread with one message and two timers.
use mathlib.Core.List.{Perm}
use codex_nos.Base.{
  ℕ, zero, suc, ◌≡◌, ◌==◌, refl, Bool, true, false, some, List, [], ◌∷◌, length-replicate,
  replicate, arith,
}
use codex_nos.Buffer.{BufPtr, Pool}
use codex_nos.Heap.Order.{IsHeap}
use codex_nos.Sched.{Thread, find_thread_of_component}
use codex_nos.Sched.Queue.{local_send, drop_messages}
use codex_nos.Sched.Queue.Fifo.{IsQueue, SendSpec, contents, local_send_correct}
use codex_nos.Sched.Queue.Filter.{others, release_targets, drop_messages_correct}
use codex_nos.Sched.Timers.{
  Timer, Clock, null_timer, timer_at, expiry, timer_start, take_due, cancel_timers_by_owner,
}
use codex_nos.Sched.Timers.Start.{StartSpec, timer_start_correct}
use codex_nos.Sched.Timers.Due.{DueSpec, take_due_correct}
use codex_nos.Sched.Timers.Cancel.{cancelled, cancel_timers_correct}

abbrev thread1 : Thread
thread1 = record {
  thread_id = 1;
  name = [];
  stop_requested = false;
  is_sleeping = true;
  notified = 0;
  msg_queue = replicate 1024 (0, 3);
  head = 1023;
  tail = 0;
  components = 5 ∷ [];
  fd_entries = [];
  nodes = 0 ∷ 1 ∷ [];
  timer_capacity = 128;
}

thread1-IsQueue : IsQueue thread1
thread1-IsQueue = record {
  size = length-replicate {A = BufPtr} 1024 (0, 3);
  head_lt = omega arith;
  tail_lt = omega arith;
}

abbrev no_pool : Pool
no_pool = record { bins = []; ctxs = [] }

local_send_correct_example : SendSpec no_pool (0, 4) thread1 (local_send no_pool (0, 4) thread1)
local_send_correct_example = local_send_correct thread1 thread1-IsQueue no_pool (0, 4)

abbrev odd_buf : BufPtr → Bool
odd_buf b = b.1 == 3

drop_messages_correct_example :
    (contents (drop_messages odd_buf no_pool thread1).1 ≡ others odd_buf (contents thread1))
    × ((drop_messages odd_buf no_pool thread1).0
        ≡ release_targets odd_buf (contents thread1) no_pool)
    × IsQueue (drop_messages odd_buf no_pool thread1).1
drop_messages_correct_example = drop_messages_correct odd_buf no_pool thread1 thread1-IsQueue

abbrev timer_of : ℕ → ℕ → Timer
timer_of time owner = record null_timer {
  expire_at_ms = time;
  is_running = true;
  is_periodic = true;
  owner = some owner;
}

-- Timers 0 and 1 are in the heap, timer 2 is not.
abbrev timers1 : List Timer
timers1 = timer_of 10 5 ∷ timer_of 20 6 ∷ null_timer ∷ []

heap1 : IsHeap (expiry timers1) thread1.nodes
heap1 zero p q r = absurd (omega arith)
heap1 (suc zero) p q r = omega arith
heap1 (suc (suc c)) p q r = absurd (omega arith)

abbrev clock1 : Clock
clock1 = record { timers = timers1; threads = thread1 ∷ [] }

found1 : find_thread_of_component clock1.threads 5 ≡ some 0
unfolding find_thread_of_component
found1 = refl

timer_start_correct_example :
    StartSpec 15 5 2 100 true clock1 0 thread1 (timer_start 15 5 2 100 true clock1)
timer_start_correct_example =
    timer_start_correct 15 5 2 100 true clock1 0 thread1 found1 refl refl heap1

take_due_correct_example : DueSpec 15 timers1 thread1 (take_due 15 timers1 thread1)
take_due_correct_example = take_due_correct 15 timers1 thread1 heap1 (omega arith)

abbrev up : ℕ → Bool
up c = true

abbrev ready_timers : List Timer
ready_timers = timer_of 10 5 ∷ timer_of 20 6 ∷ timer_of 5 5 ∷ []

heap2 : IsHeap (expiry ready_timers) thread1.nodes
heap2 zero p q r = absurd (omega arith)
heap2 (suc zero) p q r = omega arith
heap2 (suc (suc c)) p q r = absurd (omega arith)

cancel_timers_correct_example :
    IsHeap
      (expiry (cancel_timers_by_owner 5 timers1 thread1).0)
      (cancel_timers_by_owner 5 timers1 thread1).1.nodes
    × Perm (cancel_timers_by_owner 5 timers1 thread1).1.nodes (1 ∷ [])
    × ((q : ℕ)
        → timer_at (cancel_timers_by_owner 5 timers1 thread1).0 q
          ≡ cancelled 5 thread1.nodes (timer_at timers1 q) q)
cancel_timers_correct_example =
    cancel_timers_correct 5 timers1 thread1 (refl, (refl, tt)) (omega arith, (omega arith, tt))
