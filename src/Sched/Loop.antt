-- ===== src/Sched/Loop.antt =====
-- src/core/nos_scheduler.c, `nos_scheduler_run_loop` beside the calls of other threads, a shared
-- access at a time, in a sequentially consistent memory: the flag `is_sleeping`, the queue's
-- indices, `stop_requested` and the counter of `notify_fd`. A locked section is one access. Timers,
-- pending components and the callbacks of descriptors touch none of these but by a send.
pub mod Wakeup
mod Tests
use codex_nos.Base.{
  ℕ, zero, suc, ◌+◌, ◌%◌, ◌<◌, ◌≡◌, Bool, true, false, not, Option, some, ◌||◌, ◌==◌, if◌then◌else◌,
}
use codex_nos.Buffer.{BufPtr}
use codex_nos.Sched.{Thread, max_queue_size, notify}
use codex_nos.Sched.Queue.{enqueued, dequeue}

-- Where the loop stands. `deliver` and `handling` say whether they belong to the fast path, and
-- whether `notify_fd` was among the events.
pub data LoopPc : Type 0 where
  top : LoopPc
  spin : (left : ℕ) → LoopPc
  choose : (spun : Bool) → LoopPc
  deliver : (fast : Bool) → LoopPc
  poll : LoopPc
  falling : LoopPc  -- before `is_sleeping = 1`
  checking : LoopPc  -- before the second test
  backing : LoopPc  -- before `is_sleeping = 0` of the test
  waiting : LoopPc  -- in `epoll_wait` with the timeout
  woken : (ready : Bool) → LoopPc
  handling : (ready : Bool) → LoopPc
  done : LoopPc

-- `head != tail`
abbrev pub has_messages : Thread → Bool
has_messages th = not (th.head == th.tail)

-- `head != tail || stop_requested`
abbrev pub pending : Thread → Bool
pending th = has_messages th || th.stop_requested

abbrev pub after_delivery : Bool → LoopPc
after_delivery fast = if fast then poll else top

-- A step of the loop; `cycles` is the number of rounds of busy polling. A read of `notify_fd` sets
-- its counter to 0. `epoll_wait` may return for another reason, and may leave `notify_fd` out.
pub data LoopMove (cycles : ℕ) (th : Thread) : LoopPc → LoopPc → Thread → Type 0 where
  stop_seen : th.stop_requested ≡ true → LoopMove cycles th top done th
  go_on : th.stop_requested ≡ false → LoopMove cycles th top (spin cycles) th
  spin_over : LoopMove cycles th (spin zero) (choose false) th
  spin_hit : {k : ℕ} → has_messages th ≡ true → LoopMove cycles th (spin (suc k)) (choose true) th
  spin_miss : {k : ℕ} → has_messages th ≡ false → LoopMove cycles th (spin (suc k)) (spin k) th
  take_work :
      {spun : Bool}
      → (spun || has_messages th) ≡ true
      → LoopMove cycles th (choose spun) (deliver true) th
  no_work :
      {spun : Bool}
      → (spun || has_messages th) ≡ false
      → LoopMove cycles th (choose spun) falling th
  deliver_one :
      {fast : Bool} {buf : BufPtr}
      → (dequeue th).0 ≡ some buf
      → LoopMove cycles th (deliver fast) (deliver fast) (dequeue th).1
  deliver_end :
      {fast : Bool}
      → has_messages th ≡ false
      → LoopMove cycles th (deliver fast) (after_delivery fast) th
  poll_notified : LoopMove cycles th poll top (record th { notified = 0 })
  poll_other : LoopMove cycles th poll top th
  fall : LoopMove cycles th falling checking (record th { is_sleeping = true })
  back_off : pending th ≡ true → LoopMove cycles th checking backing th
  sleep : pending th ≡ false → LoopMove cycles th checking waiting th
  rise : LoopMove cycles th backing top (record th { is_sleeping = false })
  wake_notified : 0 < th.notified → LoopMove cycles th waiting (woken true) th
  wake_other : LoopMove cycles th waiting (woken false) th
  awake :
      {ready : Bool}
      → LoopMove cycles th (woken ready) (handling ready) (record th { is_sleeping = false })
  handle_notified :
      0 < th.notified
      → LoopMove cycles th (handling true) (deliver false) (record th { notified = 0 })
  handle_spurious : th.notified ≡ 0 → LoopMove cycles th (handling true) top th
  handle_other : LoopMove cycles th (handling false) top th

-- Where a caller of `nos_transport_local_send`, `nos_scheduler_stop`, `nos_timer_start` or
-- `nos_scheduler_register_component` stands: `sent` is before the test of `is_sleeping`.
pub data SenderPc : Type 0 where
  idle sent writing : SenderPc

-- A step of such a caller.
pub data SenderMove (th : Thread) : SenderPc → SenderPc → Thread → Type 0 where
  full : ((th.tail + 1) % max_queue_size == th.head) ≡ true → SenderMove th idle idle th
  enqueue :
      (buf : BufPtr)
      → ((th.tail + 1) % max_queue_size == th.head) ≡ false
      → SenderMove th idle sent (enqueued th buf)
  see_asleep : th.is_sleeping ≡ true → SenderMove th sent writing th
  see_awake : th.is_sleeping ≡ false → SenderMove th sent idle th
  write : SenderMove th writing idle (notify th)
  stop : SenderMove th idle writing (record th { stop_requested = true })
  change : SenderMove th idle writing th

-- The loop, its thread object, and any number of callers.
pub record System : Type 0 where
  pub thread : Thread
  pub pc : LoopPc
  pub senders : ℕ → SenderPc

abbrev pub update : (ℕ → SenderPc) → ℕ → SenderPc → ℕ → SenderPc
update f i p j = if i == j then p else f j

pub data Step (cycles : ℕ) (s : System) : System → Type 0 where
  loop_step :
      {p : LoopPc} {th : Thread}
      → LoopMove cycles s.thread s.pc p th
      → Step cycles s (record s { thread = th; pc = p })
  sender_step :
      (i : ℕ) {p : SenderPc} {th : Thread}
      → SenderMove s.thread (s.senders i) p th
      → Step cycles s (record s { thread = th; senders = update s.senders i p })

-- The states that follow the start of the loop on a thread that is initialised.
pub data Reach (cycles : ℕ) (th : Thread) : System → Type 0 where
  begin : Reach cycles th (record { thread = th; pc = top; senders = λ i. idle })
  next : {s t : System} → Reach cycles th s → Step cycles s t → Reach cycles th t
