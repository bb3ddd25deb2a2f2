-- ===== src/Services/Route/Deliver.antt =====
-- `process_thread_messages` hands over every message that waits, oldest first.
use codex_nos.Base.{
  ℕ, zero, suc, ◌<◌, ◌≡◌, refl, sym, ap, ◌∙◌, inl, inr, true, false, Option, none, some, List, [],
  ◌∷◌, length, get_or, get_elem?, set, get_elem?-set_self, lt_of_get_elem?, ◌==◌, Bool-cases,
  Option-cases, arith,
}
use codex_nos.Buffer.{BufPtr}
use codex_nos.Sched.{Thread, null_buf}
use codex_nos.Sched.Queue.{dequeue}
use codex_nos.Sched.Queue.Fifo.{IsQueue, contents, advanced, contents-advanced, contents_empty}
use codex_nos.Services.Route.{World, receiver, deliver, process_thread_messages}

dequeue-none : (th : Thread) → (th.head == th.tail) ≡ true → dequeue th ≡ (none, th)
unfolding dequeue
dequeue-none th e = rw (dequeue, e) refl

dequeue-some :
    (th : Thread)
    → (th.head == th.tail) ≡ false
    → dequeue th ≡ (some (get_or th.msg_queue th.head null_buf), advanced th)
unfolding dequeue
dequeue-some th e = rw (dequeue, e) refl

module _ (on_msg : ℕ → BufPtr → World → World) (t : ℕ) where
  -- The oldest message of thread `t` taken out.
  abbrev pub taken_out : World → World
  taken_out w = elim (get_elem? w.threads t) [
    | none ↦ w
    | some th ↦ record w { threads = set w.threads t (advanced th) }
  ]

  taken_out_of :
      (w : World) (th : Thread)
      → get_elem? w.threads t ≡ some th
      → taken_out w ≡ record w { threads = set w.threads t (advanced th) }
  taken_out_of w th e = rw (taken_out, e) refl

  abbrev pub deliver_all : List BufPtr → World → World
  deliver_all [] w = w
  deliver_all (buf ∷ bufs) w = deliver_all bufs (deliver on_msg buf (taken_out w))

  -- The messages that wait on thread `t`.
  abbrev pub waiting : World → List BufPtr
  waiting w = elim (get_elem? w.threads t) [ none ↦ [] | some th ↦ contents th ]

  module _
      (keeps : (c : ℕ) (buf : BufPtr) (w : World)
        → get_elem? (on_msg c buf w).threads t ≡ get_elem? w.threads t) where
    deliver-threads :
        (buf : BufPtr) (w : World)
        → get_elem? (deliver on_msg buf w).threads t ≡ get_elem? w.threads t
    unfolding deliver
    deliver-threads buf w = elim (Option-cases (receiver w (w.header buf))) [
      | inl e ↦ rw (deliver, e) refl
      | inr (c, e) ↦ rw (deliver, e) (keeps c buf w)
    ]

    -- If no callback touches the thread's own queue, a pass delivers the messages that wait in the
    -- order in which they were sent, each once, and leaves the queue empty; it takes a round for
    -- each message and one more.
    pub process_messages_correct :
        (fuel : ℕ) (w : World) (th : Thread)
        → get_elem? w.threads t ≡ some th
        → IsQueue th
        → length (contents th) < fuel
        → (process_thread_messages on_msg fuel t w ≡ deliver_all (contents th) w)
          × (waiting (process_thread_messages on_msg fuel t w) ≡ [])
    unfolding process_thread_messages
    process_messages_correct zero w th here q f = absurd (omega arith)
    process_messages_correct (suc fuel) w th here q f = elim (Bool-cases (th.head == th.tail)) [
      | inl e ↦
          let none_left = contents_empty th q (ground (arith, e)) in
          rw (process_thread_messages, here, dequeue-none th e, none_left)
            (refl, rw (waiting, here, none_left) refl)
      | inr e ↦
          let (q', c) = contents-advanced th q (λ z. ground (arith, e, z)) in
          let buf = get_or th.msg_queue th.head null_buf in
          let v : dequeue th ≡ (some buf, advanced th) = dequeue-some th e in
          let moved : (dequeue th).1 ≡ advanced th = ap (λ (z : Option BufPtr × Thread). z.1) v in
          let w1 : World = record w { threads = set w.threads t (dequeue th).1 } in
          let now_here : get_elem? w1.threads t ≡ some (advanced th) =
            get_elem?-set_self w.threads t (dequeue th).1 (lt_of_get_elem? w.threads t here)
            ∙ ap some moved in
          let (a, b) =
            process_messages_correct fuel (deliver on_msg buf w1) (advanced th)
              (deliver-threads buf w1 ∙ now_here) q' (omega (arith, f, ap length c)) in
          let same : w1 ≡ taken_out w =
            ap (λ z. record w { threads = set w.threads t z }) moved
            ∙ sym (taken_out_of w th here) in
          rw (process_thread_messages, here, v, c)
            ((a ∙ ap (λ z. deliver_all (contents (advanced th)) (deliver on_msg buf z)) same, b))
    ]
