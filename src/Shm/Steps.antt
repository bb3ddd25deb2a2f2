-- ===== src/Shm/Steps.antt =====
-- src/infra/shm/nos_shm_ipc.c, `nos_shm_channel_write` beside `nos_shm_channel_drain` on the same ring,
-- a shared access at a time, in a sequentially consistent memory. Only the writer stores `tail`
-- and only the reader stores `head`. The copy of a packet and of its length is one access.
pub mod Invariant
pub mod Writer
pub mod Reader
pub mod Safety
mod Tests
use codex_nos.Base.{
  ℕ, ◌+◌, ◌%◌, ◌≡◌, Bool, true, false, Option, none, some, List, [], ◌∷◌, ◌++◌, ◌||◌, length,
  get_or, set, ltb, ◌==◌, add64,
}
use codex_nos.Shm.{Slot, null_slot, Ring, ring_init, slot_count, slot_size}

abbrev pub Packet : Type 0
Packet = List ℕ

abbrev pub slot_at : Ring → ℕ → Slot
slot_at ring i = get_or ring.slots i null_slot

abbrev pub put_slot : Ring → ℕ → Slot → Ring
put_slot ring i slot = record ring { slots = set ring.slots i slot }

-- Where a call of the writer stands, with its packet.
pub data WriterPc : Type 0 where
  idle : WriterPc
  room : Packet → WriterPc  -- before the copy
  filled : Packet → WriterPc  -- before `ready = 1`
  marked : Packet → WriterPc  -- before `tail = next_tail`

-- A step of the writer, with the packet that it publishes.
pub data WriterMove (ring : Ring) : WriterPc → WriterPc → Ring → Option Packet → Type 0 where
  busy : ((ring.tail + 1) % slot_count == ring.head) ≡ true → WriterMove ring idle idle ring none
  enter :
      (p : Packet)
      → (length p == 0 || ltb slot_size (length p)) ≡ false
      → ((ring.tail + 1) % slot_count == ring.head) ≡ false
      → WriterMove ring idle (room p) ring none
  fill :
      {p : Packet}
      → WriterMove ring
          (room p)
          (filled p)
          (put_slot ring ring.tail (record (slot_at ring ring.tail) { bytes = p }))
          none
  mark :
      {p : Packet}
      → WriterMove ring
          (filled p)
          (marked p)
          (put_slot ring ring.tail (record (slot_at ring ring.tail) { ready = true }))
          none
  publish :
      {p : Packet}
      → WriterMove ring
          (marked p)
          idle
          (record ring { tail = (ring.tail + 1) % slot_count })
          (some p)

-- Where the loop of the reader stands; a drain that returns is followed by the next.
pub data ReaderPc : Type 0 where
  top : ReaderPc
  seen : ReaderPc  -- before the test of `ready`
  checked : ReaderPc  -- before the callback
  got : ReaderPc  -- before `ready = 0`
  cleared : ReaderPc  -- before the store of `head`
  counting : ℕ → ReaderPc  -- before `slot->len` is added, with the index of `slot`

-- A step of the reader, with its count of bytes and the packet that it hands on.
pub data ReaderMove (ring : Ring) (rx : ℕ)
    : ReaderPc → ReaderPc → Ring → ℕ → Option Packet → Type 0 where
  empty : (ring.head == ring.tail) ≡ true → ReaderMove ring rx top top ring rx none
  see : (ring.head == ring.tail) ≡ false → ReaderMove ring rx top seen ring rx none
  unready : (slot_at ring ring.head).ready ≡ false → ReaderMove ring rx seen top ring rx none
  check : (slot_at ring ring.head).ready ≡ true → ReaderMove ring rx seen checked ring rx none
  hand_on : ReaderMove ring rx checked got ring rx (some (slot_at ring ring.head).bytes)
  clear :
      ReaderMove ring rx got cleared
        (put_slot ring ring.head (record (slot_at ring ring.head) { ready = false }))
        rx
        none
  advance :
      ReaderMove ring rx cleared
        (counting ring.head)
        (record ring { head = (ring.head + 1) % slot_count })
        rx
        none
  count :
      {i : ℕ}
      → ReaderMove ring rx (counting i) top ring (add64 rx (length (slot_at ring i).bytes)) none

abbrev pub passed : List Packet → Option Packet → List Packet
passed ps none = ps
passed ps (some p) = ps ++ p ∷ []

-- The ring between its two users, with `g_shm_rx_bytes`, and the packets written and handed on.
pub record System : Type 0 where
  pub ring : Ring
  pub writer : WriterPc
  pub reader : ReaderPc
  pub rx_bytes : ℕ
  pub written : List Packet
  pub received : List Packet

pub data Step (s : System) : System → Type 0 where
  writer_step :
      {w : WriterPc} {ring : Ring} {out : Option Packet}
      → WriterMove s.ring s.writer w ring out
      → Step s (record s { ring = ring; writer = w; written = passed s.written out })
  reader_step :
      {r : ReaderPc} {ring : Ring} {rx : ℕ} {out : Option Packet}
      → ReaderMove s.ring s.rx_bytes s.reader r ring rx out
      → Step s
          (record s { ring = ring; reader = r; rx_bytes = rx; received = passed s.received out })

abbrev pub start : System
start = record {
  ring = ring_init;
  writer = idle;
  reader = top;
  rx_bytes = 0;
  written = [];
  received = [];
}

-- The states that follow a ring that is set up.
pub data Reach : System → Type 0 where
  begin : Reach start
  next : {s t : System} → Reach s → Step s t → Reach t
