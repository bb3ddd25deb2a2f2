-- ===== src/Shm/Steps/Tests.antt =====
-- src/infra/shm/nos_shm_ipc.c: a packet on its way through a ring.
use codex_nos.Base.{◌≡◌, ◌≤◌, refl, true, List, [], ◌∷◌, ◌++◌, length}
use codex_nos.Shm.Steps.{
  Packet, put_slot, slot_at, idle, room, filled, marked, WriterMove, seen, ReaderMove, System,
  writer_step, reader_step, start, Reach, begin, next,
}
use codex_nos.Shm.Steps.Safety.{CountedAt, ReadyAt, in_order}

abbrev packet : Packet
packet = 7 ∷ 9 ∷ []

abbrev entered : System
entered = record start { writer = room packet }

abbrev copied : System
copied = record entered {
  ring = put_slot entered.ring 0 (record (slot_at entered.ring 0) { bytes = packet });
  writer = filled packet;
}

abbrev marked_ready : System
marked_ready = record copied {
  ring = put_slot copied.ring 0 (record (slot_at copied.ring 0) { ready = true });
  writer = marked packet;
}

abbrev published : System
published = record marked_ready {
  ring = record marked_ready.ring { tail = 1 };
  writer = idle;
  written = packet ∷ [];
}

abbrev looked : System
looked = record published { reader = seen }

looked-Reach : Reach looked
looked-Reach =
    next
      (next
        (next
          (next (next begin (writer_step (WriterMove.enter packet refl refl)))
            (writer_step WriterMove.fill))
          (writer_step WriterMove.mark))
        (writer_step WriterMove.publish))
      (reader_step (ReaderMove.see refl))

in_order_example :
    ((rest : List Packet) × (looked.written ≡ looked.received ++ rest) × (length rest ≤ 255))
    × CountedAt looked.reader looked.rx_bytes looked.received
    × ReadyAt looked.reader looked.ring
in_order_example = in_order {s = looked} looked-Reach
