-- ===== src/Ipc/Send/Fifo.antt =====
-- The send queue of a connection as a first-in first-out list of at most 1023 messages.
use mathlib.Core.Path.{subst}
use codex_nos.Base.{
  ℕ, zero, suc, ◌+◌, ◌-◌, ◌%◌, ◌≤◌, ◌<◌, ◌≡◌, ◌≢◌, refl, sym, ap, ◌∙◌, inl, inr, true, none, List,
  [], ◌∷◌, ◌++◌, get_or, length, replicate, ◌==◌, Bool-cases, Option-cases, arith,
}
use codex_nos.Base.Rings.{
  used, window, length-window, window_of_ne_zero, used-lt, used-eq-zero, used-advance,
}
use codex_nos.Buffer.{BufPtr, release}
use codex_nos.Sched.Queue.Fifo.{release_all}
use codex_nos.Ipc.{Conn, Net, null_buf, mark_disconnected}
use codex_nos.Ipc.Send.{SendResult, Round, shm_try, round, go_on, tx_loop, process_tx, live}

abbrev pub to_send : Conn → List BufPtr
to_send c = window null_buf 1024 c.tx_queue c.head (used 1024 c.head c.tail)

-- The array is whole, and both indices lie in it.
pub record IsTxQueue (c : Conn) : Type 0 where
  pub size : length c.tx_queue ≡ 1024
  pub head_lt : c.head < 1024
  pub tail_lt : c.tail < 1024

-- The queue of `c'` is the queue of `c`, as it stands.
pub record SameQueue (c c' : Conn) : Type 0 where
  pub queue : c'.tx_queue ≡ c.tx_queue
  pub head_eq : c'.head ≡ c.head
  pub tail_eq : c'.tail ≡ c.tail

-- `c'` has the queue of `c` without its first message.
pub record OneLess (c c' : Conn) : Type 0 where
  pub queue : c'.tx_queue ≡ c.tx_queue
  pub head_eq : c'.head ≡ (c.head + 1) % 1024
  pub tail_eq : c'.tail ≡ c.tail

-- What a round leaves: the queue and the buffers as they were, or the first message released.
abbrev pub RoundSpec : Conn → Net → Round → Type 0
RoundSpec c net (Round.went c' net' rest) =
    OneLess c c' × (net'.pool ≡ release (get_or c.tx_queue c.head null_buf) net.pool)
RoundSpec c net (Round.stopped c' net') = SameQueue c c' × (net'.pool ≡ net.pool)

round_correct :
    (c : Conn) (net : Net) (sends : List SendResult) → RoundSpec c net (round c net sends)
unfolding round mark_disconnected
round_correct c net sends =
    elim (Option-cases (shm_try c net (get_or c.tx_queue c.head null_buf)).0) [
      | inr (region, e) ↦
          rw (round, e) (record { queue = refl; head_eq = refl; tail_eq = refl }, refl)
      | inl e ↦ by_send sends e
    ]
  where
    by_send :
        (sends : List SendResult)
        → (shm_try c net (get_or c.tx_queue c.head null_buf)).0 ≡ none
        → RoundSpec c net (round c net sends)
    by_send [] e = rw (round, e) (record { queue = refl; head_eq = refl; tail_eq = refl }, refl)
    by_send (SendResult.sent_all ∷ rest) e =
        rw (round, e) (record { queue = refl; head_eq = refl; tail_eq = refl }, refl)
    by_send (SendResult.again ∷ rest) e =
        rw (round, e) (record { queue = refl; head_eq = refl; tail_eq = refl }, refl)
    by_send (SendResult.failed ∷ rest) e =
        rw (round, e) (record { queue = refl; head_eq = refl; tail_eq = refl }, refl)

same-to_send : (c c' : Conn) → SameQueue c c' → to_send c' ≡ to_send c
same-to_send c c' h = rw (h.queue, h.head_eq, h.tail_eq) refl

OneLess-to_send :
    (c c' : Conn)
    → IsTxQueue c
    → c.head ≢ c.tail
    → OneLess c c'
    → (to_send c ≡ get_or c.tx_queue c.head null_buf ∷ to_send c') × IsTxQueue c'
OneLess-to_send c c' h ne o =
    let hh = h.head_lt in
    let ht = h.tail_lt in
    let some_used : used 1024 c.head c.tail ≢ 0 =
      λ e. ground (arith, used-eq-zero 1024 c.head c.tail hh ht, e, ne) in
    let here : to_send c'
        ≡ window null_buf 1024 c.tx_queue ((c.head + 1) % 1024)
            (used 1024 ((c.head + 1) % 1024) c.tail) =
      rw (o.queue, o.head_eq, o.tail_eq) refl in
    let shorter : used 1024 ((c.head + 1) % 1024) c.tail ≡ used 1024 c.head c.tail - 1 =
      used-advance 1024 c.head c.tail hh ht ne in
    (
      window_of_ne_zero null_buf 1024 c.tx_queue c.head (used 1024 c.head c.tail) some_used
          ∙ ap (◌∷◌ (get_or c.tx_queue c.head null_buf))
              (ap (window null_buf 1024 c.tx_queue ((c.head + 1) % 1024)) (sym shorter) ∙ sym here),
      record {
        size = ap length o.queue ∙ h.size;
        head_lt = omega (arith, o.head_eq);
        tail_lt = omega (arith, o.tail_eq, ht);
      },
    )

-- `sent` went out: it was first in the queue, and is released.
abbrev pub SentSpec : Conn → Net → Conn × Net → Type 0
SentSpec c net r =
    (sent : List BufPtr) × (to_send c ≡ sent ++ to_send r.0)
    × (r.1.pool ≡ release_all sent net.pool)
    × IsTxQueue r.0

tx_loop-SentSpec :
    (fuel : ℕ) (c : Conn) (net : Net) (sends : List SendResult)
    → IsTxQueue c
    → SentSpec c net (tx_loop fuel c net sends)
unfolding tx_loop
tx_loop-SentSpec zero c net sends h = ([], refl, refl, h)
tx_loop-SentSpec (suc fuel) c net sends h = elim (Bool-cases (c.head == c.tail)) [
  | inl e ↦ rw (tx_loop, e) ([], refl, refl, h)
  | inr e ↦
      rw (tx_loop, e)
        (step (λ c' net' rest. tx_loop-SentSpec fuel c' net' rest) (round c net sends)
          (round_correct c net sends) (λ z. ground (arith, e, z)))
]
  where
    step :
        ((c : Conn) (net : Net) (sends : List SendResult)
          → IsTxQueue c
          → SentSpec c net (tx_loop fuel c net sends))
        → (r : Round) → RoundSpec c net r
        → c.head ≢ c.tail
        → SentSpec c net (go_on (tx_loop fuel) r)
    step ih (Round.went c' net' rest) (o, p) ne =
        let (t, h') = OneLess-to_send c c' h ne o in
        let (sent, a, b, q) = ih c' net' rest h' in
        (
          get_or c.tx_queue c.head null_buf ∷ sent,
          t ∙ ap (◌∷◌ (get_or c.tx_queue c.head null_buf)) a,
          b ∙ ap (release_all sent) p,
          q,
        )
    step ih (Round.stopped c' net') (o, p) ne = (
      [],
      sym (same-to_send c c' o),
      p,
      record {
        size = ap length o.queue ∙ h.size;
        head_lt = omega (arith, o.head_eq, h.head_lt);
        tail_lt = omega (arith, o.tail_eq, h.tail_lt);
      },
    )

-- On a connection with a valid send queue, sending takes messages from the front of the queue, in
-- order, and releases each that it takes; the others stay in the queue as they were, also when the
-- link fails.
pub process_tx_correct :
    (c : Conn) (net : Net) (sends : List SendResult)
    → IsTxQueue c
    → SentSpec c net (process_tx c net sends)
unfolding process_tx
process_tx_correct c net sends h = elim (Bool-cases (live c)) [
  | inl e ↦ rw (process_tx, e) (tx_loop-SentSpec 1024 c net sends h)
  | inr e ↦ rw (process_tx, e) ([], refl, refl, h)
]

-- A round whose sends all succeed goes on, and uses at most one of them.
abbrev WentSpec : ℕ → Round → Type 0
WentSpec k (Round.went c' net' rest) =
    (j : ℕ) × (k ≤ j + 1) × (rest ≡ replicate j SendResult.sent_all)
WentSpec k (Round.stopped c' net') = ⊥

round-went :
    (c : Conn) (net : Net) (k : ℕ)
    → WentSpec (suc k) (round c net (replicate (suc k) SendResult.sent_all))
unfolding round
round-went c net k = elim (Option-cases (shm_try c net (get_or c.tx_queue c.head null_buf)).0) [
  | inr (region, e) ↦ rw (round, e) (suc k, omega arith, refl)
  | inl e ↦ rw (round, e) (k, omega arith, refl)
]

tx_loop-empties :
    (fuel : ℕ) (c : Conn) (net : Net) (k : ℕ)
    → IsTxQueue c
    → length (to_send c) ≤ k
    → length (to_send c) < fuel
    → to_send (tx_loop fuel c net (replicate k SendResult.sent_all)).0 ≡ []
unfolding tx_loop
tx_loop-empties zero c net k h le f = absurd (omega arith)
tx_loop-empties (suc fuel) c net k h le f = elim (Bool-cases (c.head == c.tail)) [
  | inl e ↦
      let zero_used : used 1024 c.head c.tail ≡ 0 =
        ground (arith, used-eq-zero 1024 c.head c.tail h.head_lt h.tail_lt) in
      rw (tx_loop, e) (rw zero_used refl)
  | inr e ↦
      let ne : c.head ≢ c.tail = λ z. ground (arith, e, z) in
      rw (tx_loop, e) (some_left k ne le (λ c' net' k'. tx_loop-empties fuel c' net' k'))
]
  where
    step :
        (j : ℕ) (r : Round)
        → c.head ≢ c.tail
        → length (to_send c) ≤ suc j
        → RoundSpec c net r
        → WentSpec (suc j) r
        → ((c : Conn) (net : Net) (k : ℕ)
            → IsTxQueue c
            → length (to_send c) ≤ k
            → length (to_send c) < fuel
            → to_send (tx_loop fuel c net (replicate k SendResult.sent_all)).0 ≡ [])
        → to_send (go_on (tx_loop fuel) r).0 ≡ []
    step j (Round.went c' net' rest) ne le (o, p) (i, a, q) ih =
        let (t, h') = OneLess-to_send c c' h ne o in
        let len : length (to_send c) ≡ suc (length (to_send c')) = ap length t in
        subst (λ z. to_send (tx_loop fuel c' net' z).0 ≡ []) (sym q)
          (ih c' net' i h' (omega (arith, len, a, le)) (omega (arith, len, f)))
    step j (Round.stopped c' net') ne le o w ih = absurd w

    some_left :
        (k : ℕ)
        → c.head ≢ c.tail
        → length (to_send c) ≤ k
        → ((c : Conn) (net : Net) (k : ℕ)
            → IsTxQueue c
            → length (to_send c) ≤ k
            → length (to_send c) < fuel
            → to_send (tx_loop fuel c net (replicate k SendResult.sent_all)).0 ≡ [])
        → to_send (go_on (tx_loop fuel) (round c net (replicate k SendResult.sent_all))).0 ≡ []
    some_left zero ne le ih =
        let len = length-window null_buf 1024 c.tx_queue c.head (used 1024 c.head c.tail) in
        absurd (ground (arith, len, le, ne, used-eq-zero 1024 c.head c.tail h.head_lt h.tail_lt))
    some_left (suc j) ne le ih =
        step j (round c net (replicate (suc j) SendResult.sent_all)) ne le
          (round_correct c net (replicate (suc j) SendResult.sent_all)) (round-went c net j) ih

-- On a connection that is up, with a valid send queue, a call whose sends all succeed empties the
-- queue, if there are as many sends as messages.
pub process_tx-empties :
    (c : Conn) (net : Net) (k : ℕ)
    → IsTxQueue c
    → live c ≡ true
    → length (to_send c) ≤ k
    → to_send (process_tx c net (replicate k SendResult.sent_all)).0 ≡ []
unfolding process_tx
process_tx-empties c net k h up le =
    rw (process_tx, up)
      (tx_loop-empties 1024 c net k h le (
        omega (
          arith,
          length-window null_buf 1024 c.tx_queue c.head (used 1024 c.head c.tail),
          used-lt 1024 c.head c.tail h.head_lt h.tail_lt,
        )))
