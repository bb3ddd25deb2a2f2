-- ===== src/Shm/Steps/Writer.antt =====
-- src/infra/shm/nos_shm_ipc.c: the writer keeps the invariant of the ring.
use codex_nos.Base.{
  ℕ, ◌+◌, ◌%◌, ◌≤◌, ◌≡◌, refl, sym, ap, ◌∙◌, true, false, Option, List, [], ◌∷◌, ◌++◌, length,
  length-append, length-set, get_or, get_or-append, get_or-append_length, ◌==◌, ltb, Bool-cases,
  inl, inr, arith,
}
use codex_nos.Shm.{Slot, Ring, slot_count}
use codex_nos.Shm.Steps.{
  Packet, slot_at, put_slot, WriterPc, idle, room, filled, marked, WriterMove, ReaderPc, passed,
}
use codex_nos.Shm.Steps.Invariant.{
  append-append, full_slot, put_other, put_same, lag, busy_with, lag_le, Writing, last_index, Inv,
  Reading-kept, tail_apart, tail_apart_last,
}

module _ (ring : Ring) (r : ReaderPc) (rx : ℕ) (written received rest : List Packet) where
  enter-Inv :
      (p : Packet)
      → ((ring.tail + 1) % slot_count == ring.head) ≡ false
      → Inv ring idle r rx written received rest
      → Inv ring (room p) r rx written received rest
  enter-Inv p h v =
      let less : length rest + lag r ≤ 254 =
        ground (arith, h, v.head_in, v.head_at, v.tail_at, v.short, lag_le r) in
      record {
        whole = v.whole;
        order = v.order;
        head_in = v.head_in;
        head_at = v.head_at;
        tail_at = v.tail_at;
        short = omega arith;
        slots = v.slots;
        writing = tt;
        reading = v.reading;
      }

  -- A store of the writer into the slot at `tail`.
  store-Inv :
      (w w' : WriterPc) (slot : Slot)
      → busy_with w ≡ 1
      → busy_with w' ≡ 1
      → Writing (put_slot ring ring.tail slot) w'
      → Inv ring w r rx written received rest
      → Inv (put_slot ring ring.tail slot) w' r rx written received rest
  store-Inv w w' slot b b' wr v =
      let l : length rest ≤ 254 = omega (arith, v.short) in
      record {
        whole = length-set ring.slots ring.tail slot ∙ v.whole;
        order = v.order;
        head_in = v.head_in;
        head_at = v.head_at;
        tail_at = v.tail_at;
        short = omega (arith, v.short);
        slots = λ j h.
            put_other ring ring.tail ((length received + j) % 256) slot
              (tail_apart (length received) (length rest) ring.tail j v.tail_at h l)
            ∙ v.slots j h;
        writing = wr;
        reading =
            Reading-kept ring (put_slot ring ring.tail slot) rx received rest rest r
              (ap (λ s. s.bytes)
                (put_other ring ring.tail (last_index received) slot
                  (tail_apart_last (length received) (length rest) ring.tail v.tail_at l)))
              (omega arith) v.reading;
      }

  publish-Inv :
      (p : Packet)
      → Inv ring (marked p) r rx written received rest
      → Inv
          (record ring { tail = (ring.tail + 1) % slot_count })
          idle
          r
          rx
          (written ++ p ∷ [])
          received
          (rest ++ p ∷ [])
  publish-Inv p v = record {
    whole = v.whole;
    order = ap (λ ps. ps ++ p ∷ []) v.order ∙ append-append received rest (p ∷ []);
    head_in = v.head_in;
    head_at = v.head_at;
    tail_at = omega (arith, v.tail_at, length-append rest (p ∷ []));
    short = omega (arith, v.short, length-append rest (p ∷ []));
    slots = λ j h. elim (Bool-cases (ltb j (length rest))) [
      | inl x ↦
          v.slots j (ground (arith, x))
          ∙ ap full_slot (sym (get_or-append rest (p ∷ []) j [] (ground (arith, x))))
      | inr x ↦
          let same : j ≡ length rest = ground (arith, x, h, length-append rest (p ∷ [])) in
          ap (λ k. slot_at ring ((length received + k) % 256)) same
          ∙ ap (slot_at ring) (sym v.tail_at)
          ∙ v.writing
          ∙ ap full_slot (
              sym (ap (λ k. get_or (rest ++ p ∷ []) k []) same ∙ get_or-append_length rest [] p []))
    ];
    writing = tt;
    reading =
        Reading-kept ring (record ring { tail = (ring.tail + 1) % slot_count }) rx received rest
          (rest ++ p ∷ []) r refl (omega (arith, length-append rest (p ∷ []))) v.reading;
  }

-- A step of the writer.
pub WriterMove-Inv :
    {ring ring' : Ring} {w w' : WriterPc} {r : ReaderPc} {rx : ℕ} {out : Option Packet}
    {written received rest : List Packet}
    → WriterMove ring w w' ring' out
    → Inv ring w r rx written received rest
    → Inv ring' w' r rx (passed written out) received (passed rest out)
WriterMove-Inv (WriterMove.busy h) v = v
WriterMove-Inv {ring} {r = r} {rx} {written = a} {received = b} {rest = c} (WriterMove.enter p h k)
      v =
    enter-Inv ring r rx a b c p k v
WriterMove-Inv {ring} {r = r} {rx} {written = a} {received = b} {rest = c} (WriterMove.fill {p}) v =
    store-Inv ring r rx a b c (room p) (filled p) (record (slot_at ring ring.tail) { bytes = p })
      refl refl
      (ap (λ s. s.bytes)
        (put_same ring ring.tail (record (slot_at ring ring.tail) { bytes = p }) v.whole
          (omega (arith, v.tail_at))))
      v
WriterMove-Inv {ring} {r = r} {rx} {written = a} {received = b} {rest = c} (WriterMove.mark {p}) v =
    let slot : Slot = record (slot_at ring ring.tail) { ready = true } in
    store-Inv ring r rx a b c (filled p) (marked p) slot refl refl
      (put_same ring ring.tail slot v.whole (omega (arith, v.tail_at)) ∙ ap full_slot v.writing) v
WriterMove-Inv {ring} {r = r} {rx} {written = a} {received = b} {rest = c} (WriterMove.publish {p})
      v =
    publish-Inv ring r rx a b c p v
