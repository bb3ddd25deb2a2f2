-- ===== src/Shm.antt =====
-- src/infra/shm/nos_shm_ipc.c: the shared-memory ring between two nodes, its channels and their
-- counters. The atomic loads and stores of a call make one step; the payload of a slot is the
-- bytes that `len` covers. `shm_open`, `ftruncate` and `mmap` are parameters.
pub mod Packets
pub mod Steps
mod Tests
use codex_nos.Base.{
  ℕ, zero, suc, ◌+◌, ◌%◌, Bool, true, false, not, ◌||◌, ◌&&◌, Option, none, some, List, [], ◌∷◌,
  Status, ok, err, err_busy, length, get_or, set, replicate, ltb, ◌==◌, if◌then◌else◌, CString,
  strncpy, add64,
}

-- `nos_shm_slot_t`
pub record Slot : Type 0 where
  pub ready : Bool
  pub bytes : List ℕ

abbrev pub null_slot : Slot
null_slot = record { ready = false; bytes = [] }

-- `nos_shm_ring_t`
pub record Ring : Type 0 where
  pub head : ℕ
  pub tail : ℕ
  pub slots : List Slot

-- `nos_shm_region_t`
pub record Region : Type 0 where
  pub magic : ℕ
  pub version : ℕ
  pub ab : Ring
  pub ba : Ring

-- The counters of the module.
pub record ShmStats : Type 0 where
  pub tx_packets : ℕ
  pub rx_packets : ℕ
  pub tx_bytes : ℕ
  pub rx_bytes : ℕ
  pub ring_full : ℕ
  pub fallback_uds : ℕ
  pub open_errors : ℕ

-- `struct nos_shm_channel_s`, whose `tx` and `rx` are the rings that `tx_ab` picks.
pub record Channel : Type 0 where
  pub name : CString
  pub owner : Bool
  pub tx_ab : Bool

abbrev pub slot_count : ℕ
slot_count = 256

abbrev pub slot_size : ℕ
slot_size = 8192

abbrev pub shm_magic : ℕ
shm_magic = 1314080845

-- `ring_init`
abbrev pub ring_init : Ring
ring_init = record { head = 0; tail = 0; slots = replicate slot_count null_slot }

-- The end of `channel_map`, after the mapping: a new region, or one with a wrong magic, is set up.
unfoldable pub channel_map : CString → Bool → Bool → Region → Channel × Region
channel_map name tx_ab create region =
    let fresh : Region = record {
      magic = shm_magic;
      version = 1;
      ab = ring_init;
      ba = ring_init;
    } in
    (
      record { name = strncpy 63 name; owner = create; tx_ab = tx_ab },
      if create || not (region.magic == shm_magic) then fresh else region,
    )

abbrev slash : CString → Bool
slash [] = false
slash (c ∷ name) = c == 47

-- `nos_shm_channel_create` and `nos_shm_channel_open`: `mapped` is the region that `mmap` gives, if
-- the three calls succeed.
unfoldable pub channel_open :
    Option Region → CString → Bool → Bool → ShmStats → Option (Channel × Region) × ShmStats
unfolding channel_map
channel_open mapped name tx_ab create st =
    if slash name
    then elim mapped [
      | none ↦ (none, record st { open_errors = add64 st.open_errors 1 })
      | some region ↦ (some (channel_map name tx_ab create region), st)
    ]
    else (none, st)

abbrev pub tx : Channel → Region → Ring
tx c r = if c.tx_ab then r.ab else r.ba

abbrev pub rx : Channel → Region → Ring
rx c r = if c.tx_ab then r.ba else r.ab

-- The stores of `nos_shm_channel_write`.
abbrev pub stored : Ring → List ℕ → Ring
stored ring bytes = record ring {
  slots = set ring.slots ring.tail (record { ready = true; bytes = bytes });
  tail = (ring.tail + 1) % slot_count;
}

-- `nos_shm_channel_write`, on the channel's `tx` ring, its pointers not null.
unfoldable pub write : List ℕ → Ring → ShmStats → Status × Ring × ShmStats
write bytes ring st =
    if length bytes == 0 || ltb slot_size (length bytes)
    then (err, ring, st)
    else if (ring.tail + 1) % slot_count == ring.head
    then (
      err_busy,
      ring,
      record st { ring_full = add64 st.ring_full 1; fallback_uds = add64 st.fallback_uds 1 },
    )
    else (
      ok,
      stored ring bytes,
      record st { tx_packets = add64 st.tx_packets 1; tx_bytes = add64 st.tx_bytes (length bytes) },
    )

-- The stores of a round of `nos_shm_channel_drain`.
abbrev pub consumed : Ring → Ring
consumed ring = record ring {
  slots =
      set ring.slots ring.head (record (get_or ring.slots ring.head null_slot) { ready = false });
  head = (ring.head + 1) % slot_count;
}

module _ {ℓ} {S : Type ℓ} (on_msg : List ℕ → S → S) where
  -- `nos_shm_channel_drain`, on the channel's `rx` ring, with the state of the callback and the
  -- count of packets. The loop takes fuel.
  unfoldable pub drain : ℕ → Ring → S → ShmStats → ℕ → ℕ × Ring × S × ShmStats
  drain zero ring s st drained = (drained, ring, s, st)
  drain (suc fuel) ring s st drained =
      let slot = get_or ring.slots ring.head null_slot in
      let rest =
        drain fuel (consumed ring) (on_msg slot.bytes s)
          (record st {
            rx_packets = add64 st.rx_packets 1;
            rx_bytes = add64 st.rx_bytes (length slot.bytes);
          })
          (drained + 1) in
      if ring.head == ring.tail || not slot.ready then (drained, ring, s, st) else rest
