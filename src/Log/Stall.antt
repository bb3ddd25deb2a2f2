-- ===== src/Log/Stall.antt =====
-- What follows a dropped message: the writers are a slot ahead of the consumer.
use mathlib.Core.Path.{subst}
use codex_nos.Base.{
  ℕ, zero, suc, ◌+◌, ◌-◌, ◌%◌, ◌≤◌, length, ◌≡◌, ◌≢◌, refl, sym, ap, ◌∙◌, inl, inr, false, none,
  get_or, get_or-set_ne, get_or-set_self, true, set, add32, add64, ◌==◌, CString, Bool-cases, arith,
}
use codex_nos.Log.{LogCtx, LogEntry, Level, null_entry, slot_of, log_write, consume}
use codex_nos.Log.Sync.{
  InSync, entries, AllReady, written, next-mod, log_write_full, consume_correct,
}

-- `n` rounds of the consumer.
abbrev pub consume_n : ℕ → LogCtx → LogCtx
consume_n zero s = s
consume_n (suc n) s = consume_n n (consume s).1

abbrev shifted : ℕ → ℕ → LogCtx → LogCtx
shifted w d s = record s { write_idx = w; dropped_count = d }

consume-shifted : (w d : ℕ) (s : LogCtx) → (consume (shifted w d s)).1 ≡ shifted w d (consume s).1
unfolding consume
consume-shifted w d s = elim (Bool-cases ((slot_of s s.read_idx).ready == 2)) [
  | inl e ↦ rw e refl
  | inr e ↦ rw e refl
]

consume_n-shifted :
    (n w d : ℕ) (s : LogCtx) → consume_n n (shifted w d s) ≡ shifted w d (consume_n n s)
consume_n-shifted zero w d s = refl
consume_n-shifted (suc n) w d s =
    ap (consume_n n) (consume-shifted w d s) ∙ consume_n-shifted n w d (consume s).1

consume-write_idx : (s : LogCtx) → (consume s).1.write_idx ≡ s.write_idx
unfolding consume
consume-write_idx s = elim (Bool-cases ((slot_of s s.read_idx).ready == 2)) [
  | inl e ↦ rw e refl
  | inr e ↦ rw e refl
]

consume_n-write_idx : (n : ℕ) (s : LogCtx) → (consume_n n s).write_idx ≡ s.write_idx
consume_n-write_idx zero s = refl
consume_n-write_idx (suc n) s = consume_n-write_idx n (consume s).1 ∙ consume-write_idx s

drained-InSync : (n : ℕ) (s : LogCtx) → InSync s n → InSync (consume_n n s) 0
drained-InSync zero s h = h
drained-InSync (suc n) s h =
    let (next, line, rest) = consume_correct s (suc n) h (omega arith) in
    drained-InSync n (consume s).1 (subst (InSync (consume s).1) (omega arith) next)

-- The consumer finds an empty slot, prints nothing, and has the entry in the slot behind.
abbrev pub Stalled : LogCtx → LogEntry → Type 0
Stalled z e =
    ((consume z).0 ≡ none) × ((slot_of z z.read_idx).ready ≡ 0) × (slot_of z (z.read_idx + 1) ≡ e)

first_two :
    (s : LogCtx) (idx n m : ℕ)
    → m ≡ suc (suc n)
    → AllReady 0 (entries s idx m)
    → ((slot_of s idx).ready ≡ 0) × ((slot_of s (idx + 1)).ready ≡ 0)
first_two s idx n m e h =
    let (first, others) = subst (λ k. AllReady 0 (entries s idx k)) e h in
    let next : (idx % 1024 + 1) % 1024 ≡ (idx + 1) % 1024 = omega arith in
    (first, subst (λ k. (get_or s.ring k null_entry).ready ≡ 0) next others.0)

same_slot : (s : LogCtx) (i j : ℕ) → i % 1024 ≡ j % 1024 → slot_of s i ≡ slot_of s j
same_slot s i j e = ap (λ k. get_or s.ring k null_entry) e

-- The write of an entry into a free slot behind the one that the consumer reads.
write_behind :
    (s : LogCtx) (level : Level) (c : ℕ) (text : CString)
    → s.write_idx % 1024 ≡ (s.read_idx + 1) % 1024
    → 1024 ≤ length s.ring
    → (slot_of s s.write_idx).ready ≡ 0
    → (slot_of s s.read_idx).ready ≡ 0
    → Stalled (log_write level c text s) (written level c text)
unfolding consume log_write
write_behind s level c text behind size free waits =
    let w = s.write_idx % 1024 in
    let e = written level c text in
    let f : ((slot_of s s.write_idx).ready == 0) ≡ true = ground (arith, free) in
    let idle : ((slot_of s s.read_idx).ready == 2) ≡ false = ground (arith, waits) in
    let apart : w ≢ s.read_idx % 1024 = omega (arith, behind) in
    let kept : get_or (set s.ring w e) (s.read_idx % 1024) null_entry ≡ slot_of s s.read_idx =
      get_or-set_ne s.ring w (s.read_idx % 1024) e null_entry apart in
    let there : get_or (set s.ring w e) w null_entry ≡ e =
      get_or-set_self s.ring w e null_entry (omega (arith, size)) in
    rw f (rw (kept, idle) refl, rw kept waits, rw (← behind) there)

-- A write ahead of an empty ring's consumer is not seen by it.
ahead_waits :
    (q : LogCtx) (w d : ℕ) (level : Level) (c : ℕ) (text : CString)
    → InSync q 0
    → w % 1024 ≡ (q.write_idx + 1) % 1024
    → Stalled (log_write level c text (shifted w d q)) (written level c text)
ahead_waits q w d level c text h ahead =
    let (first, second) = first_two q q.write_idx 1022 (1024 - 0) (omega arith) h.empty in
    let here : q.write_idx % 1024 ≡ q.read_idx % 1024 = omega (arith, h.meet) in
    write_behind (shifted w d q) level c text (omega (arith, here, ahead)) (omega (arith, h.size))
      (ap (λ e. e.ready) (same_slot q w (q.write_idx + 1) ahead) ∙ second)
      (ap (λ e. e.ready) (sym (same_slot q q.write_idx q.read_idx here)) ∙ first)

-- After a full ring in sync drops a message and the consumer has printed all 1024 others, the next
-- message that is logged is not printed: the consumer waits at an empty slot, with the message in
-- the slot behind it.
pub drop-stalls :
    (s : LogCtx) (level level' : Level) (c c' : ℕ) (text text' : CString)
    → InSync s 1024
    → Stalled
        (log_write level' c' text' (consume_n 1024 (log_write level c text s)))
        (written level' c' text')
drop-stalls s level level' c c' text text' h =
    let w = add32 s.write_idx 1 in
    let d = add64 s.dropped_count 1 in
    let q = consume_n 1024 s in
    let there : consume_n 1024 (log_write level c text s) ≡ shifted w d q =
      ap (consume_n 1024) (log_write_full s 1024 h level c text refl)
      ∙ consume_n-shifted 1024 w d s in
    subst (λ z. Stalled (log_write level' c' text' z) (written level' c' text')) (sym there)
      (ahead_waits q w d level' c' text' (drained-InSync 1024 s h)
        (omega (arith, next-mod s.write_idx, consume_n-write_idx 1024 s)))
