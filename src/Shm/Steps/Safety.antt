-- ===== src/Shm/Steps/Safety.antt =====
-- src/infra/shm/nos_shm_ipc.c: no packet is lost, repeated, reordered or overwritten on the way.
use codex_nos.Base.{ℕ, ◌+◌, ◌%◌, ◌≤◌, ◌≡◌, refl, ap, ◌∙◌, true, List, [], ◌++◌, length, arith}
use codex_nos.Shm.{Ring}
use codex_nos.Shm.Steps.{
  Packet, slot_at, WriterPc, ReaderPc, top, seen, checked, got, cleared, counting, passed, System,
  Step, writer_step, reader_step, Reach, begin, next,
}
use codex_nos.Shm.Steps.Invariant.{counted, Inv}
use codex_nos.Shm.Steps.{start}
use codex_nos.Shm.Steps.Writer.{WriterMove-Inv}
use codex_nos.Shm.Steps.Reader.{Good, ReaderMove-Good}

abbrev GoodSystem : System → Type 0
GoodSystem s = Good s.ring s.writer s.reader s.rx_bytes s.written s.received

start-Good : GoodSystem start
start-Good = (
  [],
  record {
    whole = refl;
    order = refl;
    head_in = omega arith;
    head_at = refl;
    tail_at = refl;
    short = omega arith;
    slots = λ j h. absurd (omega arith);
    writing = tt;
    reading = refl;
  },
)

Step-Good : {s t : System} → Step s t → GoodSystem s → GoodSystem t
Step-Good (writer_step {out = out} m) g = (passed g.0 out, WriterMove-Inv m g.1)
Step-Good (reader_step m) g = ReaderMove-Good m g.1

Reach-Good : {s : System} → Reach s → GoodSystem s
Reach-Good begin = start-Good
Reach-Good (next r st) = Step-Good st (Reach-Good r)

-- At the top of its loop the reader has counted all the bytes that it has handed on.
abbrev pub CountedAt : ReaderPc → ℕ → List Packet → Type 0
CountedAt top rx received = rx ≡ counted 0 received
CountedAt _ rx received = Unit

-- A slot that the reader is about to test is ready.
abbrev pub ReadyAt : ReaderPc → Ring → Type 0
ReadyAt seen ring = (slot_at ring ring.head).ready ≡ true
ReadyAt _ ring = Unit

Inv-CountedAt :
    (r : ReaderPc) {ring : Ring} {w : WriterPc} {rx : ℕ} {written received rest : List Packet}
    → Inv ring w r rx written received rest
    → CountedAt r rx received
Inv-CountedAt top v = v.reading
Inv-CountedAt seen v = tt
Inv-CountedAt checked v = tt
Inv-CountedAt got v = tt
Inv-CountedAt cleared v = tt
Inv-CountedAt (counting i) v = tt

Inv-ReadyAt :
    (r : ReaderPc) {ring : Ring} {w : WriterPc} {rx : ℕ} {written received rest : List Packet}
    → Inv ring w r rx written received rest
    → ReadyAt r ring
Inv-ReadyAt seen {ring} {received = received} v =
    let at : ring.head ≡ (length received + 0) % 256 = omega (arith, v.head_in, v.head_at) in
    ap (λ i. (slot_at ring i).ready) at ∙ ap (λ s. s.ready) (v.slots 0 v.reading.0)
Inv-ReadyAt top v = tt
Inv-ReadyAt checked v = tt
Inv-ReadyAt got v = tt
Inv-ReadyAt cleared v = tt
Inv-ReadyAt (counting i) v = tt

-- However the accesses of a writer and a reader of a ring interleave, the packets handed on are the
-- first of those published, in order, and at most 255 are published and not handed on; a slot that
-- the reader is about to test is ready; and whenever the reader is at the top of its loop, it has
-- added up the lengths of exactly the packets handed on.
pub in_order :
    {s : System}
    → Reach s
    → ((rest : List Packet) × (s.written ≡ s.received ++ rest) × (length rest ≤ 255))
      × CountedAt s.reader s.rx_bytes s.received
      × ReadyAt s.reader s.ring
in_order {s} r =
    let (rest, v) = Reach-Good r in
    let waiting : (rest : List Packet) × (s.written ≡ s.received ++ rest) × (length rest ≤ 255) =
      (rest, v.order, omega (arith, v.short)) in
    (waiting, Inv-CountedAt s.reader v, Inv-ReadyAt s.reader v)
