-- ===== src/Sched/Queue.antt =====
-- src/core/nos_scheduler.c, the message queue of a thread: `nos_transport_local_send`, the
-- dequeue of `process_thread_messages`, the drain of `nos_scheduler_deinit_thread` and the filter of
-- `nos_scheduler_drop_messages_for_provider`. The loops over the queue take fuel: the number of
-- messages falls at each round.
pub mod Fifo
pub mod Filter
use codex_nos.Base.{
  ℕ, zero, suc, ◌+◌, ◌-◌, ◌%◌, Bool, true, false, Option, none, some, List, [], ◌∷◌, ◌++◌, Status,
  ok, err_busy, get_or, set, length, replicate, ◌==◌, if◌then◌else◌,
}
use codex_nos.Buffer.{BufPtr, Pool, retain, release}
use codex_nos.Sched.{Thread, max_queue_size, null_buf, notify}

-- The store at `tail` and the move of `tail`.
abbrev pub enqueued : Thread → BufPtr → Thread
enqueued t buf = record t {
  msg_queue = set t.msg_queue t.tail buf;
  tail = (t.tail + 1) % max_queue_size;
}

-- `nos_transport_local_send`, to a thread that is not null.
unfoldable pub local_send : Pool → BufPtr → Thread → Status × Pool × Thread
local_send p buf t =
    let sent = enqueued t buf in
    if (t.tail + 1) % max_queue_size == t.head
    then (err_busy, p, t)
    else (ok, retain buf p, if t.is_sleeping then notify sent else sent)

-- The locked part of a round of `process_thread_messages`.
unfoldable pub dequeue : Thread → Option BufPtr × Thread
dequeue t = if t.head == t.tail then (none, t) else (
  some (get_or t.msg_queue t.head null_buf),
  record t { head = (t.head + 1) % max_queue_size },
)

-- The loop of `nos_scheduler_deinit_thread` over the queue.
unfoldable pub drain : ℕ → Pool → Thread → Pool × Thread
drain zero p t = (p, t)
drain (suc fuel) p t =
    let rest =
      drain fuel (release (get_or t.msg_queue t.head null_buf) p)
        (record t { head = (t.head + 1) % max_queue_size }) in
    if t.head == t.tail then (p, t) else rest

module _ (targets : BufPtr → Bool) where
  -- The loop of `nos_scheduler_drop_messages_for_provider`: the messages kept, in order, and the
  -- pool; `targets` says whether a message goes to the provider.
  unfoldable pub filter_loop : ℕ → Pool → Thread → List BufPtr → List BufPtr × Pool
  filter_loop zero p t kept = (kept, p)
  filter_loop (suc fuel) p t kept =
      let buf = get_or t.msg_queue t.head null_buf in
      let t' = record t { head = (t.head + 1) % max_queue_size } in
      let next = if targets buf then release buf p else p in
      let kept' = if targets buf then kept else kept ++ buf ∷ [] in
      let rest = filter_loop fuel next t' kept' in if t.head == t.tail then (kept, p) else rest

  -- The queue that replaces the old one: the messages kept, from slot 0 on.
  unfoldable pub drop_messages : Pool → Thread → Pool × Thread
  unfolding filter_loop
  drop_messages p t =
      let (kept, p') = filter_loop max_queue_size p t [] in
      (
        p',
        record t {
          msg_queue = kept ++ replicate (max_queue_size - length kept) null_buf;
          head = 0;
          tail = length kept % max_queue_size;
        },
      )
