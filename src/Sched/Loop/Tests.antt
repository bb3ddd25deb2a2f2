-- ===== src/Sched/Loop/Tests.antt =====
-- The loop falls asleep, and a caller sends it a message.
use codex_nos.Base.{ℕ, ◌<◌, ◌≡◌, refl, true, false, [], replicate}
use codex_nos.Sched.{Thread, notify}
use codex_nos.Sched.Queue.{enqueued}
use codex_nos.Sched.Loop.{
  waiting, LoopMove, SenderMove, SenderPc, idle, sent, writing, System, update, loop_step,
  sender_step, Reach, begin, next,
}
use codex_nos.Sched.Loop.Wakeup.{Coming, is_idle, no_lost_wakeup}

abbrev awake_thread : Thread
awake_thread = record {
  thread_id = 1;
  name = [];
  stop_requested = false;
  is_sleeping = false;
  notified = 0;
  msg_queue = replicate 1024 (0, 3);
  head = 1023;
  tail = 1023;
  components = [];
  fd_entries = [];
  nodes = [];
  timer_capacity = 128;
}

abbrev asleep_thread : Thread
asleep_thread = record awake_thread { is_sleeping = true }

abbrev senders1 : ℕ → SenderPc
senders1 = update (update (update (λ i. idle) 0 sent) 0 writing) 0 idle

abbrev notified_system : System
notified_system = record {
  thread = notify (enqueued asleep_thread (0, 4));
  pc = waiting;
  senders = senders1;
}

notified-Reach : Reach 0 awake_thread notified_system
notified-Reach =
    let falls =
      next
        (next
          (next (next (next begin (loop_step (LoopMove.go_on refl))) (loop_step LoopMove.spin_over))
            (loop_step (LoopMove.no_work refl)))
          (loop_step LoopMove.fall))
        (loop_step (LoopMove.sleep refl)) in
    next
      (next (next falls (sender_step 0 (SenderMove.enqueue (0, 4) refl)))
        (sender_step 0 (SenderMove.see_asleep refl)))
      (sender_step 0 SenderMove.write)

no_lost_wakeup_example :
    (notified_system.thread.is_sleeping ≡ true)
    × Coming notified_system.thread notified_system.senders
    × (((i : ℕ) → is_idle (notified_system.senders i) ≡ true) → 0 < notified_system.thread.notified)
no_lost_wakeup_example = no_lost_wakeup refl notified-Reach refl refl
