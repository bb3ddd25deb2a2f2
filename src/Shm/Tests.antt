-- ===== src/Shm/Tests.antt =====
-- The properties of the shared-memory ring at a ring with one packet.
use codex_nos.Base.{
  ℕ, ◌≡◌, ◌++◌, refl, true, List, [], ◌∷◌, length, length-set, length-replicate, replicate, set,
  ◌∙◌, arith,
}
use codex_nos.Shm.{Ring, ShmStats, null_slot, write, drain}
use codex_nos.Shm.Packets.{IsRing, WriteSpec, packets, handle_all, write_correct, drain_correct}

abbrev no_stats : ShmStats
no_stats = record {
  tx_packets = 0;
  rx_packets = 0;
  tx_bytes = 0;
  rx_bytes = 0;
  ring_full = 0;
  fallback_uds = 0;
  open_errors = 0;
}

-- The packet lies in the last slot, so the write index has gone round.
abbrev ring1 : Ring
ring1 = record {
  head = 255;
  tail = 0;
  slots = set (replicate 256 null_slot) 255 (record { ready = true; bytes = 7 ∷ [] });
}

ring1-IsRing : IsRing ring1
ring1-IsRing = record {
  size =
      length-set (replicate 256 null_slot) 255 (record { ready = true; bytes = 7 ∷ [] })
      ∙ length-replicate 256 null_slot;
  head_lt = omega arith;
  tail_lt = omega arith;
  all_ready = (refl, tt);
}

write_correct_example : WriteSpec (1 ∷ 2 ∷ []) ring1 (write (1 ∷ 2 ∷ []) ring1 no_stats)
write_correct_example = write_correct ring1 ring1-IsRing (1 ∷ 2 ∷ []) no_stats

abbrev collect : List ℕ → List (List ℕ) → List (List ℕ)
collect b s = s ++ b ∷ []

drain_correct_example :
    ((drain collect 256 ring1 [] no_stats 0).0 ≡ length (packets ring1))
    × ((drain collect 256 ring1 [] no_stats 0).2 ≡ handle_all collect (packets ring1) [])
    × (packets (drain collect 256 ring1 [] no_stats 0).1 ≡ [])
    × IsRing (drain collect 256 ring1 [] no_stats 0).1
drain_correct_example = drain_correct collect ring1 [] no_stats ring1-IsRing
