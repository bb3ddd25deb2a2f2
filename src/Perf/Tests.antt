-- ===== src/Perf/Tests.antt =====
-- src/components/perf on a concrete command.
use codex_nos.Base.{ℕ, suc, ◌≡◌, ◌*◌, ◌++◌, refl, Bool, leb, [], ◌∷◌, codes, true, ◌≤◌, arith, map}
use codex_nos.Cli.{no_history}
use codex_nos.Cli.Thread.{run_line}
use codex_nos.Perf.{RPingCtx, defaults}
use codex_nos.Perf.Exchange.{run}
use codex_nos.Perf.Sweep.{testing, tests}
use codex_nos.Perf.Command.{requests, start_msg, swept, sweep_correct}

-- A pool whose buffers hold 4096 bytes of payload.
abbrev room : ℕ → Bool
room size = leb size 4096

room-leb : (size : ℕ) → size ≤ 4096 → room size ≡ true
room-leb size h = ground arith

abbrev idle : RPingCtx
idle = testing 0 0 0 0 0 []

sweep_correct_example :
    run room
      (suc (16 * swept (codes " 2")))
      idle
      (requests (run_line (codes "perf remote sweep" ++ codes " 2") no_history).1)
    ≡ record {
      ctx = testing (swept (codes " 2")) (swept (codes " 2")) 4096 0 0 defaults;
      left = [];
      delivered = start_msg (swept (codes " 2")) ∷ tests (swept (codes " 2")) defaults 0 8;
    }
sweep_correct_example = sweep_correct room room-leb (codes " 2") no_history idle

two_swept : swept (codes " 2") ≡ 2
unfolding codex_nos.Cli.Numbers.scan_u
two_swept = refl

two_sizes :
    map (λ m. m.payload_len) (tests 2 (32 ∷ 64 ∷ []) 0 2)
    ≡ 32 ∷ 32 ∷ 32 ∷ 32 ∷ 64 ∷ 64 ∷ 64 ∷ 64 ∷ []
two_sizes = refl
