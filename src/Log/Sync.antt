-- ===== src/Log/Sync.antt =====
-- While no message is dropped, the log ring is a first-in first-out list of at most 1024 messages.
use mathlib.Core.Path.{subst}
use codex_nos.Base.{
  ℕ, suc, ◌+◌, ◌-◌, ◌%◌, ◌≤◌, ◌<◌, ◌≡◌, refl, sym, ap, ◌∙◌, true, false, none, some, List, [], ◌∷◌,
  ◌++◌, set, length, length-set, take, All, add32, add64, ◌==◌, CString, arith,
}
use codex_nos.Base.Rings.{window, window-set, window-set_before}
use codex_nos.Log.{LogEntry, LogCtx, Level, null_entry, slot_of, log_write, consume, line_of}

-- `n` entries from an index on, and the state that all are in.
abbrev pub entries : LogCtx → ℕ → ℕ → List LogEntry
entries s idx n = window null_entry 1024 s.ring (idx % 1024) n

abbrev pub AllReady : ℕ → List LogEntry → Type 0
AllReady k = All (λ (e : LogEntry). e.ready ≡ k)

-- The `n` slots from `read_idx` on are full, and the others, from `write_idx` on, are empty.
pub record InSync (s : LogCtx) (n : ℕ) : Type 0 where
  pub size : length s.ring ≡ 1024
  pub room : n ≤ 1024
  pub meet : s.write_idx % 1024 ≡ (s.read_idx + n) % 1024
  pub full : AllReady 2 (entries s s.read_idx n)
  pub empty : AllReady 0 (entries s s.write_idx (1024 - n))

All-append1 :
    (k : ℕ) (xs : List LogEntry) (x : LogEntry)
    → AllReady k xs
    → x.ready ≡ k
    → AllReady k (xs ++ x ∷ [])
All-append1 k [] x h e = (e, tt)
All-append1 k (y ∷ xs) x (a, h) e = (a, All-append1 k xs x h e)

pub next-mod : (i : ℕ) → add32 i 1 % 1024 ≡ (i % 1024 + 1) % 1024
next-mod i = omega arith

abbrev pub written : Level → ℕ → CString → LogEntry
written level c text = record { level = level; comp_id = c; message = take 255 text; ready = 2 }

module _ (s : LogCtx) (n : ℕ) (h : InSync s n) where
  -- In a ring in sync in which fewer than 1024 messages wait, a message is written behind those that
  -- wait, none is dropped, and the ring stays in sync.
  pub log_write_room :
      (level : Level) (c : ℕ) (text : CString)
      → n < 1024
      → InSync (log_write level c text s) (suc n)
        × (entries (log_write level c text s) s.read_idx (suc n)
            ≡ entries s s.read_idx n ++ written level c text ∷ [])
        × ((log_write level c text s).dropped_count ≡ s.dropped_count)
  unfolding log_write
  log_write_room level c text room =
      let w = s.write_idx % 1024 in
      let m = 1023 - n in
      let e = written level c text in
      let split : 1024 - n ≡ suc m = omega arith in
      let (first, rest) = subst (λ k. AllReady 0 (entries s s.write_idx k)) split h.empty in
      let free : ((slot_of s s.write_idx).ready == 0) ≡ true = ground (arith, first) in
      let grown : entries (record s { ring = set s.ring w e }) s.read_idx (suc n)
          ≡ entries s s.read_idx n ++ e ∷ [] =
        window-set null_entry 1024 s.ring e n (s.read_idx % 1024) w (omega (arith, h.size))
          (omega arith) room (omega (arith, h.meet)) in
      let after : window null_entry 1024 (set s.ring w e) ((w + 1) % 1024) m
          ≡ window null_entry 1024 s.ring ((w + 1) % 1024) m =
        window-set_before null_entry 1024 s.ring e m w 1 (omega arith) (omega arith)
          (omega arith) in
      let s' : LogCtx = record s { write_idx = add32 s.write_idx 1; ring = set s.ring w e } in
      let v : log_write level c text s ≡ s' = rw (log_write, free) refl in
      let left : 1024 - suc n ≡ m = omega arith in
      let good : InSync s' (suc n) = record {
        size = length-set s.ring w e ∙ h.size;
        room = room;
        meet = omega (arith, next-mod s.write_idx, h.meet);
        full =
            subst (AllReady 2) (sym grown) (All-append1 2 (entries s s.read_idx n) e h.full refl);
        empty = rw (next-mod s.write_idx, left) (subst (AllReady 0) (sym after) rest);
      } in
      subst
        (λ z.
          InSync z (suc n)
          × (entries z s.read_idx (suc n) ≡ entries s s.read_idx n ++ e ∷ [])
          × (z.dropped_count ≡ s.dropped_count))
        (sym v) (good, grown, refl)

  -- A message that finds 1024 others is counted as dropped, and nothing is written.
  pub log_write_full :
      (level : Level) (c : ℕ) (text : CString)
      → n ≡ 1024
      → log_write level c text s
        ≡ record s { write_idx = add32 s.write_idx 1; dropped_count = add64 s.dropped_count 1 }
  unfolding log_write
  log_write_full level c text all =
      let (first, rest) = subst (λ k. AllReady 2 (entries s s.read_idx k)) all h.full in
      let same : s.write_idx % 1024 ≡ s.read_idx % 1024 = omega (arith, h.meet) in
      let taken : ((slot_of s s.write_idx).ready == 0) ≡ false =
        rw (slot_of, same) (ground (arith, first)) in
      rw (log_write, taken) refl

  -- In a ring in sync in which messages wait, a round of the consumer prints the oldest one, and
  -- leaves the others, in order, in a ring in sync.
  pub consume_correct :
      (0 < n)
      → InSync (consume s).1 (n - 1)
        × ((consume s).0 ≡ some (line_of s (slot_of s s.read_idx)))
        × (entries s s.read_idx n
            ≡ slot_of s s.read_idx ∷ entries (consume s).1 (consume s).1.read_idx (n - 1))
  unfolding consume
  consume_correct some_left =
      let r = s.read_idx % 1024 in
      let m = n - 1 in
      let k = 1024 - n in
      let e = slot_of s s.read_idx in
      let gone : LogEntry = record e { ready = 0 } in
      let hr = h.room in
      let split : n ≡ suc m = omega arith in
      let (first, rest) = subst (λ j. AllReady 2 (entries s s.read_idx j)) split h.full in
      let busy : ((slot_of s s.read_idx).ready == 2) ≡ true = ground (arith, first) in
      let after : window null_entry 1024 (set s.ring r gone) ((r + 1) % 1024) m
          ≡ window null_entry 1024 s.ring ((r + 1) % 1024) m =
        window-set_before null_entry 1024 s.ring gone m r 1 (omega arith) (omega arith)
          (omega (arith, hr)) in
      let grown : window null_entry 1024 (set s.ring r gone) (s.write_idx % 1024) (suc k)
          ≡ entries s s.write_idx k ++ gone ∷ [] =
        window-set null_entry 1024 s.ring gone k (s.write_idx % 1024) r (omega (arith, h.size))
          (omega arith) (omega (arith, some_left)) (omega (arith, h.meet, hr)) in
      let wider : 1024 - m ≡ suc k = omega (arith, hr, some_left) in
      rw (consume, busy, next-mod s.read_idx)
        (
          record {
            size = length-set s.ring r gone ∙ h.size;
            room = omega (arith, hr);
            meet = omega (arith, next-mod s.read_idx, h.meet, some_left);
            full = rw (next-mod s.read_idx) (subst (AllReady 2) (sym after) rest);
            empty = rw wider (
                subst (AllReady 0) (sym grown)
                  (All-append1 0 (entries s s.write_idx k) gone h.empty refl));
          },
          refl,
          ap (entries s s.read_idx) split ∙ ap (◌∷◌ e) (sym after),
        )

  pub consume_waits : n ≡ 0 → consume s ≡ (none, s)
  unfolding consume
  consume_waits none_left =
      let all : 1024 - n ≡ suc 1023 = omega arith in
      let (first, rest) = subst (λ j. AllReady 0 (entries s s.write_idx j)) all h.empty in
      let same : s.write_idx % 1024 ≡ s.read_idx % 1024 = omega (arith, h.meet) in
      let idle : ((slot_of s s.read_idx).ready == 2) ≡ false =
        rw (slot_of, ← same) (ground (arith, first)) in
      rw (consume, idle) refl
