-- ===== src/Sched/Queue/Fifo.antt =====
-- The message queue of a thread as a first-in first-out list of at most 1023 messages.
use codex_nos.Base.{
  ℕ, zero, suc, ◌+◌, ◌%◌, ◌<◌, ◌≡◌, ◌≢◌, refl, sym, ap, ◌∙◌, inl, inr, Option, none, some, List, [],
  ◌∷◌, ◌++◌, Status, ok, err_busy, get_or, set, length, length-set, ◌==◌, Bool-cases, if◌then◌else◌,
  arith,
}
use codex_nos.Base.Rings.{
  used, window, length-window, window_of_ne_zero, window-set, used-lt, used-eq-zero, full_iff,
  used-next, used-advance, add-used,
}
use codex_nos.Buffer.{BufPtr, Pool, retain, release}
use codex_nos.Sched.{Thread, max_queue_size, null_buf}
use codex_nos.Sched.Queue.{enqueued, local_send, dequeue, drain}

-- The array is whole, and both indices lie in it.
pub record IsQueue (t : Thread) : Type 0 where
  pub size : length t.msg_queue ≡ 1024
  pub head_lt : t.head < 1024
  pub tail_lt : t.tail < 1024

-- The messages that wait, oldest first.
abbrev pub contents : Thread → List BufPtr
contents t = window null_buf 1024 t.msg_queue t.head (used 1024 t.head t.tail)

-- The result `r` of sending `buf` to `t`: the queue is full and nothing changes, or the message
-- is last in the queue, has one reference more, and a sleeping thread is notified.
abbrev pub SendSpec : Pool → BufPtr → Thread → Status × Pool × Thread → Type 0
SendSpec p buf t r =
    if length (contents t) == 1023
    then r ≡ (err_busy, p, t)
    else (r.0 ≡ ok)
      × (r.1 ≡ retain buf p)
      × IsQueue r.2
      × (contents r.2 ≡ contents t ++ buf ∷ [])
      × (r.2.notified ≡ (if t.is_sleeping then t.notified + 1 else t.notified))

abbrev pub advanced : Thread → Thread
advanced t = record t { head = (t.head + 1) % max_queue_size }

-- The result of taking a message from `t`: the oldest, or none.
abbrev pub DequeueSpec : Thread → Option BufPtr × Thread → Type 0
DequeueSpec t (none, t') = (contents t ≡ []) × (t' ≡ t)
DequeueSpec t (some buf, t') = (contents t ≡ buf ∷ contents t') × IsQueue t'

module _ (t : Thread) (h : IsQueue t) where
  pub length-contents : length (contents t) ≡ used 1024 t.head t.tail
  length-contents = length-window null_buf 1024 t.msg_queue t.head (used 1024 t.head t.tail)

  contents-enqueued :
      (buf : BufPtr)
      → (t.tail + 1) % 1024 ≢ t.head
      → IsQueue (enqueued t buf) × (contents (enqueued t buf) ≡ contents t ++ buf ∷ [])
  contents-enqueued buf ne =
      let hh = h.head_lt in
      let ht = h.tail_lt in
      let grown : used 1024 t.head ((t.tail + 1) % 1024) ≡ suc (used 1024 t.head t.tail) =
        omega (arith, used-next 1024 t.head t.tail hh ht ne) in
      (
        record {
          size = length-set t.msg_queue t.tail buf ∙ h.size;
          head_lt = hh;
          tail_lt = omega arith;
        },
        ap (window null_buf 1024 (set t.msg_queue t.tail buf) t.head) grown
            ∙ window-set null_buf 1024 t.msg_queue buf (used 1024 t.head t.tail) t.head t.tail
                (omega (arith, h.size)) hh (used-lt 1024 t.head t.tail hh ht)
                (sym (add-used 1024 t.head t.tail hh ht)),
      )

  -- Sending a message to a thread with a valid queue is busy, and changes nothing, exactly when 1023
  -- messages wait; else the message is last, has one reference more, a sleeping thread is notified,
  -- and the queue is valid.
  pub local_send_correct : (p : Pool) (buf : BufPtr) → SendSpec p buf t (local_send p buf t)
  unfolding local_send
  local_send_correct p buf =
      let hh = h.head_lt in
      let ht = h.tail_lt in
      let full : (((t.tail + 1) % 1024) == t.head) ≡ (length (contents t) == 1023) =
        ground (arith, full_iff 1024 t.head t.tail hh ht, length-contents) in
      elim (Bool-cases (length (contents t) == 1023)) [
        | inl e ↦ rw (full, e) refl
        | inr e ↦
            let ne : (t.tail + 1) % 1024 ≢ t.head = λ q. ground (arith, full, e, q) in
            let (q, c) = contents-enqueued buf ne in
            rw (full, e)
              (elim (Bool-cases t.is_sleeping) [
                | inl s ↦ rw s (
                  refl,
                  refl,
                  record { size = q.size; head_lt = q.head_lt; tail_lt = q.tail_lt },
                  c,
                  refl,
                )
                | inr s ↦ rw s (
                  refl,
                  refl,
                  record { size = q.size; head_lt = q.head_lt; tail_lt = q.tail_lt },
                  c,
                  refl,
                )
              ])
      ]

  pub contents-advanced :
      t.head ≢ t.tail
      → IsQueue (advanced t)
        × (contents t ≡ get_or t.msg_queue t.head null_buf ∷ contents (advanced t))
  contents-advanced ne =
      let hh = h.head_lt in
      let ht = h.tail_lt in
      let some_used : used 1024 t.head t.tail ≢ 0 =
        λ e. ground (arith, used-eq-zero 1024 t.head t.tail hh ht, e, ne) in
      (
        record { size = h.size; head_lt = omega arith; tail_lt = ht },
        window_of_ne_zero null_buf 1024 t.msg_queue t.head (used 1024 t.head t.tail) some_used
            ∙ ap
                (λ n.
                  get_or t.msg_queue t.head null_buf
                  ∷ window null_buf 1024 t.msg_queue ((t.head + 1) % 1024) n)
                (sym (used-advance 1024 t.head t.tail hh ht ne)),
      )

  pub contents_empty : t.head ≡ t.tail → contents t ≡ []
  contents_empty e =
      let hh = h.head_lt in
      let zero_used : used 1024 t.head t.tail ≡ 0 =
        ground (arith, used-eq-zero 1024 t.head t.tail hh h.tail_lt) in
      rw zero_used refl

  -- Taking a message from a valid queue gives the oldest and leaves the others in a valid queue, and
  -- fails, changing nothing, only when none waits.
  pub dequeue_correct : DequeueSpec t (dequeue t)
  unfolding dequeue
  dequeue_correct = elim (Bool-cases (t.head == t.tail)) [
    | inl e ↦ rw e (contents_empty (ground (arith, e)), refl)
    | inr e ↦ let (q, c) = contents-advanced (λ q. ground (arith, e, q)) in rw e (c, q)
  ]

abbrev pub release_all : List BufPtr → Pool → Pool
release_all [] p = p
release_all (b ∷ bs) p = release_all bs (release b p)

drain_loop-eq :
    (fuel : ℕ) (p : Pool) (t : Thread)
    → IsQueue t
    → length (contents t) < fuel
    → ((drain fuel p t).0 ≡ release_all (contents t) p) × ((drain fuel p t).1.head ≡ t.tail)
unfolding drain
drain_loop-eq zero p t h f = absurd (omega arith)
drain_loop-eq (suc fuel) p t h f = elim (Bool-cases (t.head == t.tail)) [
  | inl e ↦ rw (e, contents_empty t h (ground (arith, e))) (refl, ground (arith, e))
  | inr e ↦
      let (q, c) = contents-advanced t h (λ w. ground (arith, e, w)) in
      let f' : length (contents (advanced t)) < fuel = omega (arith, f, ap length c) in
      let (a, b) =
        drain_loop-eq fuel (release (get_or t.msg_queue t.head null_buf) p) (advanced t) q f' in
      rw (e, c) (a, b)
]

-- Draining a valid queue releases every message, oldest first, and leaves it empty, in 1024 rounds.
pub drain-eq :
    (p : Pool) (t : Thread)
    → IsQueue t
    → ((drain 1024 p t).0 ≡ release_all (contents t) p) × ((drain 1024 p t).1.head ≡ t.tail)
drain-eq p t h =
    let hh = h.head_lt in
    drain_loop-eq 1024 p t h
      (omega (arith, length-contents t h, used-lt 1024 t.head t.tail hh h.tail_lt))
