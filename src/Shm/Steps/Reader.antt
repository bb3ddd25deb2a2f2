-- ===== src/Shm/Steps/Reader.antt =====
-- src/infra/shm/nos_shm_ipc.c: the reader keeps the invariant of the ring.
use codex_nos.Base.{
  ℕ, suc, ◌+◌, ◌%◌, ◌≤◌, ◌<◌, ◌≡◌, refl, sym, ap, ◌∙◌, false, Option, List, [], ◌∷◌, ◌++◌, length,
  length-append, length-set, ◌==◌, add64, arith,
}
use codex_nos.Shm.{Slot, Ring, slot_count}
use codex_nos.Shm.Steps.{
  Packet, slot_at, put_slot, WriterPc, idle, room, filled, marked, ReaderPc, top, seen, checked,
  got, cleared, counting, ReaderMove, passed,
}
use codex_nos.Shm.Steps.Invariant.{
  counted, counted-append, append-cons, put_other, put_same, lag, busy_with, Writing, last_index,
  Owing, Reading, Inv, Owing-kept,
}

length-snoc : (ps : List Packet) (p : Packet) → length (ps ++ p ∷ []) ≡ suc (length ps)
length-snoc ps p = omega (arith, length-append ps (p ∷ []))

Writing-kept :
    (ring ring' : Ring) (w : WriterPc)
    → (busy_with w ≡ 1 → slot_at ring' ring'.tail ≡ slot_at ring ring.tail)
    → Writing ring w
    → Writing ring' w
Writing-kept ring ring' idle e x = tt
Writing-kept ring ring' (room p) e x = tt
Writing-kept ring ring' (filled p) e x = ap (λ s. s.bytes) (e refl) ∙ x
Writing-kept ring ring' (marked p) e x = e refl ∙ x

module _ (ring : Ring) (w : WriterPc) (rx : ℕ) (written received rest : List Packet) where
  -- A step of the reader that stores nothing.
  look-Inv :
      (r r' : ReaderPc)
      → lag r ≡ lag r'
      → Reading ring rx received rest r'
      → Inv ring w r rx written received rest
      → Inv ring w r' rx written received rest
  look-Inv r r' e x v = record {
    whole = v.whole;
    order = v.order;
    head_in = v.head_in;
    head_at = rw (← e) v.head_at;
    tail_at = v.tail_at;
    short = rw (← e) v.short;
    slots = v.slots;
    writing = v.writing;
    reading = x;
  }

  see-some :
      (ring.head == ring.tail) ≡ false → Inv ring w top rx written received rest → 0 < length rest
  see-some h v = ground (arith, h, v.head_in, v.head_at, v.tail_at)

  clear-Inv :
      Inv ring w got rx written received rest
      → Inv
          (put_slot ring ring.head (record (slot_at ring ring.head) { ready = false }))
          w
          cleared
          rx
          written
          received
          rest
  clear-Inv v =
      let slot : Slot = record (slot_at ring ring.head) { ready = false } in
      let at : ring.head ≡ last_index received = omega (arith, v.head_in, v.head_at) in
      let other : (k : ℕ)
          → k ≤ 254
          → slot_at (put_slot ring ring.head slot) ((length received + k) % 256)
            ≡ slot_at ring ((length received + k) % 256) =
        λ k h.
          put_other ring ring.head ((length received + k) % 256) slot
            (λ e. omega (arith, v.head_in, v.head_at)) in
      record {
        whole = length-set ring.slots ring.head slot ∙ v.whole;
        order = v.order;
        head_in = v.head_in;
        head_at = v.head_at;
        tail_at = v.tail_at;
        short = v.short;
        slots = λ j h. other j (omega (arith, v.short)) ∙ v.slots j h;
        writing =
            Writing-kept ring (put_slot ring ring.head slot) w
              (λ b.
                ap (slot_at (put_slot ring ring.head slot)) v.tail_at
                ∙ other (length rest) (omega (arith, v.short, b))
                ∙ ap (slot_at ring) (sym v.tail_at))
              v.writing;
        reading =
            Owing-kept ring (put_slot ring ring.head slot) rx received
              (ap (λ i. (slot_at (put_slot ring ring.head slot) i).bytes) (sym at)
                ∙ ap (λ s. s.bytes) (put_same ring ring.head slot v.whole v.head_in)
                ∙ ap (λ i. (slot_at ring i).bytes) at)
              v.reading;
      }

  advance-Inv :
      Inv ring w cleared rx written received rest
      → Inv
          (record ring { head = (ring.head + 1) % slot_count })
          w
          (counting ring.head)
          rx
          written
          received
          rest
  advance-Inv v = record {
    whole = v.whole;
    order = v.order;
    head_in = omega arith;
    head_at = omega (arith, v.head_in, v.head_at);
    tail_at = v.tail_at;
    short = omega (arith, v.short);
    slots = v.slots;
    writing =
        Writing-kept ring (record ring { head = (ring.head + 1) % slot_count }) w (λ b. refl)
          v.writing;
    reading = (
      omega (arith, v.head_in, v.head_at),
      Owing-kept ring (record ring { head = (ring.head + 1) % slot_count }) rx received refl
          v.reading,
    );
  }

  count-Inv :
      (i : ℕ)
      → Inv ring w (counting i) rx written received rest
      → Inv ring w top (add64 rx (length (slot_at ring i).bytes)) written received rest
  count-Inv i v =
      let o : Owing ring rx received = v.reading.1 in
      let same : (slot_at ring i).bytes ≡ o.last =
        ap (λ k. (slot_at ring k).bytes) v.reading.0 ∙ o.kept in
      record {
        whole = v.whole;
        order = v.order;
        head_in = v.head_in;
        head_at = v.head_at;
        tail_at = v.tail_at;
        short = v.short;
        slots = v.slots;
        writing = v.writing;
        reading =
            ap (λ p. add64 rx (length p)) same
            ∙ ap (λ n. add64 n (length o.last)) o.paid
            ∙ sym (counted-append 0 o.before o.last)
            ∙ ap (counted 0) (sym o.split);
      }

hand_on-Inv :
    (ring : Ring) (w : WriterPc) (rx : ℕ) (written received : List Packet) (p : Packet)
    (rest : List Packet)
    → Inv ring w checked rx written received (p ∷ rest)
    → Inv ring w got rx written (received ++ (slot_at ring ring.head).bytes ∷ []) rest
hand_on-Inv ring w rx written received p rest v =
    let q : Packet = (slot_at ring ring.head).bytes in
    let len : length (received ++ q ∷ []) ≡ suc (length received) = length-snoc received q in
    let at : (length received + 0) % 256 ≡ ring.head = omega (arith, v.head_in, v.head_at) in
    let same : q ≡ p = ap (λ s. s.bytes) (ap (slot_at ring) (sym at) ∙ v.slots 0 (omega arith)) in
    record {
      whole = v.whole;
      order =
          v.order ∙ ap (λ x. received ++ x ∷ rest) (sym same) ∙ sym (append-cons received q rest);
      head_in = v.head_in;
      head_at = omega (arith, v.head_at, len);
      tail_at = omega (arith, v.tail_at, len);
      short = omega (arith, v.short);
      slots = λ j h. ap (slot_at ring) (omega (arith, len)) ∙ v.slots (suc j) (omega arith);
      writing = v.writing;
      reading = record {
        before = received;
        last = q;
        split = refl;
        kept = ap (λ i. (slot_at ring i).bytes) (omega (arith, len, v.head_in, v.head_at));
        paid = v.reading.1;
      };
    }

-- The invariant, with the packets that are written and not handed on.
abbrev pub Good : Ring → WriterPc → ReaderPc → ℕ → (written received : List Packet) → Type 0
Good ring w r rx written received = (rest : List Packet) × Inv ring w r rx written received rest

hand_on-Good :
    (ring : Ring) (w : WriterPc) (rx : ℕ) (written received rest : List Packet)
    → Inv ring w checked rx written received rest
    → Good ring w got rx written (received ++ (slot_at ring ring.head).bytes ∷ [])
hand_on-Good ring w rx written received [] v = absurd (omega (arith, v.reading.0))
hand_on-Good ring w rx written received (p ∷ rest) v =
    (rest, hand_on-Inv ring w rx written received p rest v)

-- A step of the reader.
pub ReaderMove-Good :
    {ring ring' : Ring} {w : WriterPc} {r r' : ReaderPc} {rx rx' : ℕ} {out : Option Packet}
    {written received rest : List Packet}
    → ReaderMove ring rx r r' ring' rx' out
    → Inv ring w r rx written received rest
    → Good ring' w r' rx' written (passed received out)
ReaderMove-Good {rest = c} (ReaderMove.empty h) v = (c, v)
ReaderMove-Good {ring} {w = w} {rx = rx} {written = a} {received = b} {rest = c} (ReaderMove.see h)
      v =
    (c, look-Inv ring w rx a b c top seen refl (see-some ring w rx a b c h v, v.reading) v)
ReaderMove-Good {ring} {w = w} {rx = rx} {written = a} {received = b} {rest = c}
      (ReaderMove.unready h) v =
    (c, look-Inv ring w rx a b c seen top refl v.reading.1 v)
ReaderMove-Good {ring} {w = w} {rx = rx} {written = a} {received = b} {rest = c}
      (ReaderMove.check h) v =
    (c, look-Inv ring w rx a b c seen checked refl v.reading v)
ReaderMove-Good {ring} {w = w} {rx = rx} {written = a} {received = b} {rest = c} ReaderMove.hand_on
      v =
    hand_on-Good ring w rx a b c v
ReaderMove-Good {ring} {w = w} {rx = rx} {written = a} {received = b} {rest = c} ReaderMove.clear
      v =
    (c, clear-Inv ring w rx a b c v)
ReaderMove-Good {ring} {w = w} {rx = rx} {written = a} {received = b} {rest = c} ReaderMove.advance
      v =
    (c, advance-Inv ring w rx a b c v)
ReaderMove-Good {ring} {w = w} {rx = rx} {written = a} {received = b} {rest = c}
      (ReaderMove.count {i}) v =
    (c, count-Inv ring w rx a b c i v)
