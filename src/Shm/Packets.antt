-- ===== src/Shm/Packets.antt =====
-- The shared-memory ring as a first-in first-out list of at most 255 packets.
use codex_nos.Base.{
  ℕ, zero, suc, ◌+◌, ◌-◌, ◌%◌, ◌<◌, ◌≡◌, ◌≢◌, refl, sym, ap, ◌∙◌, inl, inr, true, false, ◌||◌, List,
  [], ◌∷◌, ◌++◌, map, Status, ok, err, err_busy, get_or, set, length, length-set, length-map, All,
  ◌==◌, ltb, if◌then◌else◌, Bool-cases, arith, add64,
}
use mathlib.Core.Path.{subst}
use codex_nos.Base.Rings.{
  used, window, length-window, window_of_ne_zero, window-set, window-set_before, used-lt,
  used-eq-zero, full_iff, used-next, used-advance, add-used,
}
use codex_nos.Shm.{Slot, Ring, ShmStats, null_slot, stored, consumed, write, drain, slot_size}

-- The slots between the two indices.
abbrev pub pending : Ring → List Slot
pending r = window null_slot 256 r.slots r.head (used 256 r.head r.tail)

abbrev pub packets : Ring → List (List ℕ)
packets r = map (λ (s : Slot). s.bytes) (pending r)

-- The array is whole, the indices lie in it, and each slot between them is ready.
pub record IsRing (r : Ring) : Type 0 where
  pub size : length r.slots ≡ 256
  pub head_lt : r.head < 256
  pub tail_lt : r.tail < 256
  pub all_ready : All (λ (s : Slot). s.ready ≡ true) (pending r)

All-append :
    (xs : List Slot) (x : Slot)
    → All (λ (s : Slot). s.ready ≡ true) xs
    → x.ready ≡ true
    → All (λ (s : Slot). s.ready ≡ true) (xs ++ x ∷ [])
All-append [] x h e = (e, tt)
All-append (y ∷ xs) x (a, h) e = (a, All-append xs x h e)

map-append1 :
    (xs : List Slot) (x : Slot)
    → map (λ (s : Slot). s.bytes) (xs ++ x ∷ []) ≡ map (λ (s : Slot). s.bytes) xs ++ x.bytes ∷ []
map-append1 [] x = refl
map-append1 (y ∷ xs) x = ap (◌∷◌ y.bytes) (map-append1 xs x)

-- A packet of no bytes or of more than a slot holds is an error; a full ring is busy; both leave
-- the ring. Else the packet is the last of the ring's.
abbrev pub WriteSpec : List ℕ → Ring → Status × Ring × ShmStats → Type 0
WriteSpec bytes r res =
    if length bytes == 0 || ltb slot_size (length bytes)
    then (res.0 ≡ err) × (res.1 ≡ r)
    else if length (pending r) == 255
    then (res.0 ≡ err_busy) × (res.1 ≡ r)
    else (res.0 ≡ ok) × IsRing res.1 × (packets res.1 ≡ packets r ++ bytes ∷ [])

module _ (r : Ring) (h : IsRing r) where
  length-pending : length (pending r) ≡ used 256 r.head r.tail
  length-pending = length-window null_slot 256 r.slots r.head (used 256 r.head r.tail)

  pending-stored :
      (bytes : List ℕ)
      → (r.tail + 1) % 256 ≢ r.head
      → pending (stored r bytes) ≡ pending r ++ record { ready = true; bytes = bytes } ∷ []
  pending-stored bytes ne =
      let hh = h.head_lt in
      let ht = h.tail_lt in
      let slot : Slot = record { ready = true; bytes = bytes } in
      let grown : used 256 r.head ((r.tail + 1) % 256) ≡ suc (used 256 r.head r.tail) =
        omega (arith, used-next 256 r.head r.tail hh ht ne) in
      ap (window null_slot 256 (set r.slots r.tail slot) r.head) grown
      ∙ window-set null_slot 256 r.slots slot (used 256 r.head r.tail) r.head r.tail
          (omega (arith, h.size)) hh (used-lt 256 r.head r.tail hh ht)
          (sym (add-used 256 r.head r.tail hh ht))

  -- Writing to a valid ring refuses an empty or an oversized packet, is busy exactly when 255
  -- packets wait, leaving the ring in both cases, and else adds the packet at the end, in a valid
  -- ring.
  pub write_correct : (bytes : List ℕ) (st : ShmStats) → WriteSpec bytes r (write bytes r st)
  unfolding write
  write_correct bytes st =
      let hh = h.head_lt in
      let ht = h.tail_lt in
      let full : (((r.tail + 1) % 256) == r.head) ≡ (length (pending r) == 255) =
        ground (arith, full_iff 256 r.head r.tail hh ht, length-pending) in
      elim (Bool-cases (length bytes == 0 || ltb slot_size (length bytes))) [
        | inl e ↦ rw e (refl, refl)
        | inr e ↦ elim (Bool-cases (length (pending r) == 255)) [
          | inl q ↦ rw (e, full, q) (refl, refl)
          | inr q ↦
              let ne : (r.tail + 1) % 256 ≢ r.head = λ z. ground (arith, full, q, z) in
              let slot : Slot = record { ready = true; bytes = bytes } in
              let p = pending-stored bytes ne in
              let good : IsRing (stored r bytes) = record {
                size = length-set r.slots r.tail slot ∙ h.size;
                head_lt = hh;
                tail_lt = omega arith;
                all_ready =
                    subst (All (λ (s : Slot). s.ready ≡ true)) (sym p)
                      (All-append (pending r) slot h.all_ready refl);
              } in
              rw (e, full, q)
                (refl, good, ap (map (λ (s : Slot). s.bytes)) p ∙ map-append1 (pending r) slot)
        ]
      ]

  pending_cons :
      r.head ≢ r.tail → pending r ≡ get_or r.slots r.head null_slot ∷ pending (consumed r)
  pending_cons ne =
      let hh = h.head_lt in
      let ht = h.tail_lt in
      let u = used-lt 256 r.head r.tail hh ht in
      let some_used : used 256 r.head r.tail ≢ 0 =
        λ e. ground (arith, used-eq-zero 256 r.head r.tail hh ht, e, ne) in
      let slot = record (get_or r.slots r.head null_slot) { ready = false } in
      let n = used 256 r.head r.tail - 1 in
      window_of_ne_zero null_slot 256 r.slots r.head (used 256 r.head r.tail) some_used
      ∙ ap (◌∷◌ (get_or r.slots r.head null_slot)) (
          sym (
            window-set_before null_slot 256 r.slots slot n r.head 1 hh (omega arith)
              (omega (arith, u)))
          ∙ ap (window null_slot 256 (set r.slots r.head slot) ((r.head + 1) % 256))
              (sym (used-advance 256 r.head r.tail hh ht ne)))

  pending_empty : r.head ≡ r.tail → pending r ≡ []
  pending_empty e =
      let hh = h.head_lt in
      let zero_used : used 256 r.head r.tail ≡ 0 =
        ground (arith, used-eq-zero 256 r.head r.tail hh h.tail_lt) in
      rw zero_used refl

  consumed-IsRing :
      (s : Slot) (rest : List Slot)
      → pending r ≡ s ∷ pending (consumed r)
      → (s.ready ≡ true) × IsRing (consumed r)
  consumed-IsRing s rest c =
      let hh = h.head_lt in
      let (first, others) = subst (All (λ (s : Slot). s.ready ≡ true)) c h.all_ready in
      (
        first,
        record {
          size =
              length-set r.slots r.head (record (get_or r.slots r.head null_slot) { ready = false })
              ∙ h.size;
          head_lt = omega arith;
          tail_lt = h.tail_lt;
          all_ready = others;
        },
      )

module _ {ℓ} {S : Type ℓ} (on_msg : List ℕ → S → S) where
  -- The callback on each packet, in order.
  abbrev pub handle_all : List (List ℕ) → S → S
  handle_all [] s = s
  handle_all (b ∷ bs) s = handle_all bs (on_msg b s)

  drain_loop-eq :
      (fuel : ℕ) (r : Ring) (s : S) (st : ShmStats) (k : ℕ)
      → IsRing r
      → length (pending r) < fuel
      → ((drain on_msg fuel r s st k).0 ≡ k + length (pending r))
        × ((drain on_msg fuel r s st k).2 ≡ handle_all (packets r) s)
        × (packets (drain on_msg fuel r s st k).1 ≡ [])
        × IsRing (drain on_msg fuel r s st k).1
  unfolding drain
  drain_loop-eq zero r s st k h f = absurd (omega arith)
  drain_loop-eq (suc fuel) r s st k h f = elim (Bool-cases (r.head == r.tail)) [
    | inl e ↦
        let gone = pending_empty r h (ground (arith, e)) in
        rw (drain, e, gone) (omega arith, refl, refl, h)
    | inr e ↦
        let c = pending_cons r h (λ z. ground (arith, e, z)) in
        let slot = get_or r.slots r.head null_slot in
        let (first, next) = consumed-IsRing r h slot [] c in
        let st' : ShmStats = record st {
          rx_packets = add64 st.rx_packets 1;
          rx_bytes = add64 st.rx_bytes (length slot.bytes);
        } in
        let (a, b, p, q) =
          drain_loop-eq fuel (consumed r) (on_msg slot.bytes s) st' (k + 1) next
            (omega (arith, f, ap length c)) in
        rw (drain, e, first, c) (omega (arith, a), b, p, q)
  ]

  -- Draining a valid ring hands every packet that waits to the callback, in the order written,
  -- counts them, and leaves the ring valid and empty; 256 rounds are enough.
  pub drain_correct :
      (r : Ring) (s : S) (st : ShmStats)
      → IsRing r
      → ((drain on_msg 256 r s st 0).0 ≡ length (packets r))
        × ((drain on_msg 256 r s st 0).2 ≡ handle_all (packets r) s)
        × (packets (drain on_msg 256 r s st 0).1 ≡ [])
        × IsRing (drain on_msg 256 r s st 0).1
  drain_correct r s st h =
      let hh = h.head_lt in
      let (a, b, p, q) =
        drain_loop-eq 256 r s st 0 h
          (omega (arith, length-pending r h, used-lt 256 r.head r.tail hh h.tail_lt)) in
      (omega (arith, a, length-map (λ (s : Slot). s.bytes) (pending r)), b, p, q)
