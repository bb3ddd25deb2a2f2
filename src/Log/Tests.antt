-- ===== src/Log/Tests.antt =====
-- The properties of the log at the initial ring, at a ring with one message and at a full ring.
use codex_nos.Base.{
  ℕ, zero, suc, ◌+◌, ◌%◌, ◌≡◌, ◌<◌, refl, some, [], ◌∷◌, length-replicate, get_or, replicate, arith,
  ◌∙◌, ap,
}
use codex_nos.Base.Rings.{window}
use codex_nos.Log.{
  LogEntry, LogCtx, null_entry, debug, info, slot_of, log_write, consume, line_of, g_log_ctx,
}
use codex_nos.Log.Sync.{InSync, AllReady, entries, written, consume_correct}
use codex_nos.Log.Stall.{Stalled, consume_n, drop-stalls}

get_or-replicate : (n i : ℕ) (e : LogEntry) → i < n → get_or (replicate n e) i null_entry ≡ e
get_or-replicate zero i e h = absurd (omega arith)
get_or-replicate (suc n) zero e h = refl
get_or-replicate (suc n) (suc i) e h = get_or-replicate n i e (omega arith)

all_same :
    (e : LogEntry) (k i n : ℕ)
    → e.ready ≡ k
    → i < 1024
    → AllReady k (window null_entry 1024 (replicate 1024 e) i n)
all_same e k i zero h p = tt
all_same e k i (suc n) h p = (
  ap (λ (x : LogEntry). x.ready) (get_or-replicate 1024 i e p) ∙ h,
  all_same e k ((i + 1) % 1024) n h (omega arith),
)

g_log_ctx-InSync : InSync g_log_ctx 0
g_log_ctx-InSync = record {
  size = length-replicate 1024 null_entry;
  room = omega arith;
  meet = refl;
  full = tt;
  empty = all_same null_entry 0 0 1024 refl (omega arith);
}

abbrev full_ctx : LogCtx
full_ctx = record g_log_ctx { ring = replicate 1024 (written info 3 (104 ∷ [])); write_idx = 1024 }

full_ctx-InSync : InSync full_ctx 1024
full_ctx-InSync = record {
  size = length-replicate 1024 (written info 3 (104 ∷ []));
  room = omega arith;
  meet = refl;
  full = all_same (written info 3 (104 ∷ [])) 2 0 1024 refl (omega arith);
  empty = tt;
}

consume_correct_example :
    InSync (consume full_ctx).1 1023
    × ((consume full_ctx).0 ≡ some (line_of full_ctx (slot_of full_ctx 0)))
    × (entries full_ctx 0 1024
        ≡ slot_of full_ctx 0 ∷ entries (consume full_ctx).1 (consume full_ctx).1.read_idx 1023)
consume_correct_example = consume_correct full_ctx 1024 full_ctx-InSync (omega arith)

drop-stalls_example :
    Stalled
      (log_write info 2 (98 ∷ []) (consume_n 1024 (log_write debug 1 (97 ∷ []) full_ctx)))
      (written info 2 (98 ∷ []))
drop-stalls_example = drop-stalls full_ctx debug info 1 2 (97 ∷ []) (98 ∷ []) full_ctx-InSync
