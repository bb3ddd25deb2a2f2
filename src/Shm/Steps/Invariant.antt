-- ===== src/Shm/Steps/Invariant.antt =====
-- src/infra/shm/nos_shm_ipc.c: the invariant of a ring that a writer and a reader use.
use codex_nos.Base.{
  ℕ, ◌+◌, ◌%◌, ◌≤◌, ◌<◌, ◌≡◌, ◌≢◌, refl, ap, ◌∙◌, true, List, [], ◌∷◌, ◌++◌, length, get_or,
  get_or-set_self, get_or-set_ne, add64, arith,
}
use codex_nos.Shm.{Slot, null_slot, Ring}
use codex_nos.Shm.Steps.{
  Packet, slot_at, put_slot, WriterPc, idle, filled, marked, ReaderPc, top, seen, checked, got,
  cleared, counting,
}

-- The bytes of packets, added up as `g_shm_rx_bytes` is.
abbrev pub counted : ℕ → List Packet → ℕ
counted acc [] = acc
counted acc (p ∷ ps) = counted (add64 acc (length p)) ps

pub counted-append :
    (acc : ℕ) (ps : List Packet) (p : Packet)
    → counted acc (ps ++ p ∷ []) ≡ add64 (counted acc ps) (length p)
counted-append acc [] p = refl
counted-append acc (q ∷ ps) p = counted-append (add64 acc (length q)) ps p

pub append-cons :
    (ps : List Packet) (p : Packet) (qs : List Packet) → (ps ++ p ∷ []) ++ qs ≡ ps ++ p ∷ qs
append-cons [] p qs = refl
append-cons (x ∷ ps) p qs = ap (◌∷◌ x) (append-cons ps p qs)

pub append-append : (ps qs rs : List Packet) → (ps ++ qs) ++ rs ≡ ps ++ (qs ++ rs)
append-append [] qs rs = refl
append-append (x ∷ ps) qs rs = ap (◌∷◌ x) (append-append ps qs rs)

abbrev pub full_slot : Packet → Slot
full_slot p = record { ready = true; bytes = p }

pub put_other :
    (ring : Ring) (i j : ℕ) (v : Slot) → i ≢ j → slot_at (put_slot ring i v) j ≡ slot_at ring j
put_other ring i j v n = get_or-set_ne ring.slots i j v null_slot n

pub put_same :
    (ring : Ring) (i : ℕ) (v : Slot)
    → length ring.slots ≡ 256
    → i < 256
    → slot_at (put_slot ring i v) i ≡ v
put_same ring i v whole h = get_or-set_self ring.slots i v null_slot (omega arith)

-- Whether the packet at `head` was handed on already.
abbrev pub lag : ReaderPc → ℕ
lag got = 1
lag cleared = 1
lag _ = 0

abbrev pub busy_with : WriterPc → ℕ
busy_with idle = 0
busy_with _ = 1

pub lag_le : (r : ReaderPc) → lag r ≤ 1
lag_le top = omega arith
lag_le seen = omega arith
lag_le checked = omega arith
lag_le got = omega arith
lag_le cleared = omega arith
lag_le (counting i) = omega arith

-- What the writer has put into the slot at `tail`.
abbrev pub Writing : Ring → WriterPc → Type 0
Writing ring (filled p) = (slot_at ring ring.tail).bytes ≡ p
Writing ring (marked p) = slot_at ring ring.tail ≡ full_slot p
Writing ring _ = Unit

-- The slot of the last packet that was handed on.
abbrev pub last_index : List Packet → ℕ
last_index received = (length received + 255) % 256

-- The last packet is still in its slot, and its bytes are not counted.
pub record Owing (ring : Ring) (rx : ℕ) (received : List Packet) : Type 0 where
  pub before : List Packet
  pub last : Packet
  pub split : received ≡ before ++ last ∷ []
  pub kept : (slot_at ring (last_index received)).bytes ≡ last
  pub paid : rx ≡ counted 0 before

abbrev pub Reading : Ring → ℕ → (received rest : List Packet) → ReaderPc → Type 0
Reading ring rx received rest top = rx ≡ counted 0 received
Reading ring rx received rest seen = (0 < length rest) × (rx ≡ counted 0 received)
Reading ring rx received rest checked = (0 < length rest) × (rx ≡ counted 0 received)
Reading ring rx received rest got = Owing ring rx received
Reading ring rx received rest cleared = Owing ring rx received
Reading ring rx received rest (counting i) = (i ≡ last_index received) × Owing ring rx received

pub record Inv (ring : Ring) (w : WriterPc) (r : ReaderPc) (rx : ℕ)
    (written received rest : List Packet) : Type 0 where
  pub whole : length ring.slots ≡ 256
  pub order : written ≡ received ++ rest
  pub head_in : ring.head < 256
  pub head_at : (ring.head + lag r) % 256 ≡ length received % 256
  pub tail_at : ring.tail ≡ (length received + length rest) % 256
  pub short : length rest + lag r + busy_with w ≤ 255
  pub slots :
      (j : ℕ)
      → j < length rest
      → slot_at ring ((length received + j) % 256) ≡ full_slot (get_or rest j [])
  pub writing : Writing ring w
  pub reading : Reading ring rx received rest r

pub Owing-kept :
    (ring ring' : Ring) (rx : ℕ) (received : List Packet)
    → (slot_at ring' (last_index received)).bytes ≡ (slot_at ring (last_index received)).bytes
    → Owing ring rx received
    → Owing ring' rx received
Owing-kept ring ring' rx received e o = record {
  before = o.before;
  last = o.last;
  split = o.split;
  kept = e ∙ o.kept;
  paid = o.paid;
}

pub Reading-kept :
    (ring ring' : Ring) (rx : ℕ) (received rest rest' : List Packet) (r : ReaderPc)
    → (slot_at ring' (last_index received)).bytes ≡ (slot_at ring (last_index received)).bytes
    → length rest ≤ length rest'
    → Reading ring rx received rest r
    → Reading ring' rx received rest' r
Reading-kept ring ring' rx received rest rest' top e l o = o
Reading-kept ring ring' rx received rest rest' seen e l o = (omega (arith, o.0), o.1)
Reading-kept ring ring' rx received rest rest' checked e l o = (omega (arith, o.0), o.1)
Reading-kept ring ring' rx received rest rest' got e l o = Owing-kept ring ring' rx received e o
Reading-kept ring ring' rx received rest rest' cleared e l o = Owing-kept ring ring' rx received e o
Reading-kept ring ring' rx received rest rest' (counting i) e l o =
    (o.0, Owing-kept ring ring' rx received e o.1)

-- The store into the slot at `tail` touches no slot that waits and not the last one handed on.
pub tail_apart : (d l tail j : ℕ) → tail ≡ (d + l) % 256 → j < l → l ≤ 254 → tail ≢ (d + j) % 256
tail_apart d l tail j t h k e = omega arith

pub tail_apart_last : (d l tail : ℕ) → tail ≡ (d + l) % 256 → l ≤ 254 → tail ≢ (d + 255) % 256
tail_apart_last d l tail t k e = omega arith
