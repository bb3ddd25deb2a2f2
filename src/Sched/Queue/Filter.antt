-- ===== src/Sched/Queue/Filter.antt =====
-- Dropping the messages of a provider: the queue keeps the others, in order.
use codex_nos.Base.{
  ℕ, zero, suc, ◌+◌, ◌-◌, ◌%◌, ◌≤◌, ◌<◌, ◌≡◌, refl, ap, ◌∙◌, inl, inr, Bool, List, [], ◌∷◌, ◌++◌,
  get_or, get_or-append_length, replicate, length-replicate, length, length-append, ◌==◌,
  Bool-cases, if◌then◌else◌, arith,
}
use codex_nos.Base.Rings.{used, window, used-lt}
use codex_nos.Buffer.{BufPtr, Pool, release}
use codex_nos.Sched.{Thread, null_buf}
use codex_nos.Sched.Queue.{filter_loop, drop_messages}
use codex_nos.Sched.Queue.Fifo.{
  IsQueue, contents, advanced, contents-advanced, contents_empty, length-contents,
}

module _ (targets : BufPtr → Bool) where
  -- The messages that do not go to the provider.
  abbrev pub others : List BufPtr → List BufPtr
  others [] = []
  others (b ∷ bs) = if targets b then others bs else b ∷ others bs

  -- The pool after the messages that do are released.
  abbrev pub release_targets : List BufPtr → Pool → Pool
  release_targets [] p = p
  release_targets (b ∷ bs) p = release_targets bs (if targets b then release b p else p)

  others_le : (bs : List BufPtr) → length (others bs) ≤ length bs
  others_le [] = omega arith
  others_le (b ∷ bs) = elim (Bool-cases (targets b)) [
    | inl e ↦ rw e (omega (arith, others_le bs))
    | inr e ↦ rw e (omega (arith, others_le bs))
  ]

  append_assoc1 : (xs ys : List BufPtr) (b : BufPtr) → (xs ++ b ∷ []) ++ ys ≡ xs ++ b ∷ ys
  append_assoc1 [] ys b = refl
  append_assoc1 (x ∷ xs) ys b = ap (◌∷◌ x) (append_assoc1 xs ys b)

  append_nil : (xs : List BufPtr) → xs ++ [] ≡ xs
  append_nil [] = refl
  append_nil (x ∷ xs) = ap (◌∷◌ x) (append_nil xs)

  filter_loop-eq :
      (fuel : ℕ) (p : Pool) (t : Thread) (kept : List BufPtr)
      → IsQueue t
      → length (contents t) < fuel
      → filter_loop targets fuel p t kept
        ≡ (kept ++ others (contents t), release_targets (contents t) p)
  unfolding filter_loop
  filter_loop-eq zero p t kept h f = absurd (omega arith)
  filter_loop-eq (suc fuel) p t kept h f = elim (Bool-cases (t.head == t.tail)) [
    | inl e ↦ rw (e, contents_empty t h (ground (arith, e)), append_nil kept) refl
    | inr e ↦
        let (q, c) = contents-advanced t h (λ w. ground (arith, e, w)) in
        let f' : length (contents (advanced t)) < fuel = omega (arith, f, ap length c) in
        let b = get_or t.msg_queue t.head null_buf in
        elim (Bool-cases (targets b)) [
          | inl s ↦
              rw (e, c, others, release_targets, s)
                (filter_loop-eq fuel (release b p) (advanced t) kept q f')
          | inr s ↦
              rw (e, c, others, release_targets, s)
                (filter_loop-eq fuel p (advanced t) (kept ++ b ∷ []) q f'
                  ∙ ap (λ z. (z, release_targets (contents (advanced t)) p))
                      (append_assoc1 kept (others (contents (advanced t))) b))
        ]
  ]

  window_of_append :
      (xs ys pre : List BufPtr)
      → length pre + length xs ≤ 1023
      → window null_buf 1024 (pre ++ (xs ++ ys)) (length pre) (length xs) ≡ xs
  window_of_append [] ys pre h = refl
  window_of_append (x ∷ xs) ys pre h =
      let more = length-append pre (x ∷ []) in
      let at : (length pre + 1) % 1024 ≡ length (pre ++ x ∷ []) = omega (arith, h) in
      let buf = pre ++ (x ∷ xs ++ ys) in
      let tail : window null_buf 1024 buf ((length pre + 1) % 1024) (length xs) ≡ xs =
        rw (at, ← append_assoc1 pre (xs ++ ys) x)
          (window_of_append xs ys (pre ++ x ∷ []) (omega (arith, h))) in
      ap (λ b. b ∷ window null_buf 1024 buf ((length pre + 1) % 1024) (length xs))
        (get_or-append_length pre (xs ++ ys) x null_buf)
      ∙ ap (◌∷◌ x) tail

  -- Dropping the messages of a provider from a valid queue keeps the others in order, releases each
  -- that is dropped once, and leaves a valid queue.
  pub drop_messages_correct :
      (p : Pool) (t : Thread)
      → IsQueue t
      → (contents (drop_messages targets p t).1 ≡ others (contents t))
        × ((drop_messages targets p t).0 ≡ release_targets (contents t) p)
        × IsQueue (drop_messages targets p t).1
  unfolding drop_messages
  drop_messages_correct p t h =
      let hh = h.head_lt in
      let ht = h.tail_lt in
      let u = used-lt 1024 t.head t.tail hh ht in
      let kept = others (contents t) in
      let small : length kept < 1024 =
        omega (arith, u, others_le (contents t), length-contents t h) in
      let pad = replicate (1024 - length kept) null_buf in
      let whole : length (kept ++ pad) ≡ 1024 =
        omega
          (arith, length-append kept pad, length-replicate (1024 - length kept) null_buf, small) in
      let here : length kept % 1024 ≡ length kept = omega (arith, small) in
      let from_zero : used 1024 0 (length kept) ≡ length kept = ground arith in
      rw (filter_loop-eq 1024 p t [] h (omega (arith, u, length-contents t h)), here)
        (
          ap (window null_buf 1024 (kept ++ pad) 0) from_zero
              ∙ window_of_append kept pad [] (omega (arith, small)),
          refl,
          record { size = whole; head_lt = omega arith; tail_lt = small },
        )
