-- ===== src/Perf/Command.antt =====
-- src/core/nos_cli.c and src/components/perf: the command `perf remote sweep`, from the line to the end.
use codex_nos.Base.{
  ℕ, zero, suc, ◌*◌, ◌^◌, ◌≤◌, ◌<◌, ◌≡◌, refl, sym, ap, ◌∙◌, Bool, true, ◌&&◌, leb, Option, none,
  some, List, [], ◌∷◌, ◌++◌, length, get_or, CString, codes, arith,
}
use codex_nos.Cli.{Entries, perf_remote}
use codex_nos.Cli.Numbers.{scan_u}
use codex_nos.Cli.Numbers.Bound.{FitsWord, scan_u-FitsWord}
use codex_nos.Cli.Actions.{
  Action, send, handler, do_perf_remote, remote_args, or_default, second_number,
}
use codex_nos.Cli.Dispatch.{dispatch-typed}
use codex_nos.Cli.Thread.{action_of, run_line}
use codex_nos.Perf.{Msg, RPingCtx, sweep_mark, defaults, remote_ping}
use codex_nos.Perf.Exchange.{noted, deliver, run}
use codex_nos.Perf.Sweep.{testing, ping_of, tests, rounds, twice-eq, run-cons, run-tests}

-- What an action sends; its number, which the command does not write, is taken to be 0.
abbrev pub requests : Action → List Msg
requests (send service code ws) =
    record {
      dst_service = service;
      msg_code = code;
      seq = 0;
      payload_len = 4 * length ws;
      words = ws;
    }
    ∷ []
requests a = []

abbrev pub start_msg : ℕ → Msg
start_msg n = record {
  dst_service = 113;
  msg_code = 3001;
  seq = 0;
  payload_len = 8;
  words = n ∷ sweep_mark ∷ [];
}

-- The number of pings that the command asks for, from what follows `sweep`.
abbrev pub swept : CString → ℕ
swept rest = or_default (second_number 10000 (scan_u rest))

sweep-action :
    (rest : CString) (h : Entries)
    → requests (run_line (codes "perf remote sweep" ++ rest) h).1 ≡ start_msg (swept rest) ∷ []
unfolding run_line handler do_perf_remote remote_args
sweep-action rest h =
    ap (λ d. requests (action_of d)) (dispatch-typed perf_remote (some (codes "sweep" ++ rest)))

abbrev all_small : List ℕ → Bool
all_small [] = true
all_small (x ∷ xs) = leb x 4096 && all_small xs

get_or-small : (xs : List ℕ) → all_small xs ≡ true → (m : ℕ) → get_or xs m 0 ≤ 4096
get_or-small [] e m = omega arith
get_or-small (x ∷ xs) e zero = ground arith
get_or-small (x ∷ xs) e (suc m) = get_or-small xs (ground arith) m

rounds-eq : (n : ℕ) → rounds n 8 0 ≡ 16 * n
rounds-eq n = omega (
  arith,
  twice-eq n (rounds n 7 0),
  twice-eq n (rounds n 6 0),
  twice-eq n (rounds n 5 0),
  twice-eq n (rounds n 4 0),
  twice-eq n (rounds n 3 0),
  twice-eq n (rounds n 2 0),
  twice-eq n (rounds n 1 0),
  twice-eq n 0,
)

second_number-bound : (o : Option (ℕ × CString)) → FitsWord o → second_number 10000 o < 2 ^ 32
second_number-bound none h = omega arith
second_number-bound (some (v, s)) h = h

or_default-bound : (n : ℕ) → n < 2 ^ 32 → (1 ≤ or_default n) × (or_default n < 2 ^ 32)
or_default-bound n h = ground arith

module _ (room : ℕ → Bool) (all : (size : ℕ) → size ≤ 4096 → room size ≡ true) where
  deliver-start :
      (n : ℕ) (c : RPingCtx)
      → deliver room (start_msg n) c ≡ (testing n 0 32 8 0 defaults, ping_of 1 32 ∷ [])
  unfolding deliver remote_ping
  deliver-start n c = rw (all 32 (omega arith)) refl

  run-sweep :
      (n : ℕ) (c : RPingCtx)
      → 1 ≤ n
      → n < 2 ^ 32
      → run room (suc (rounds n 8 0)) c (start_msg n ∷ []) ≡ record {
        ctx = testing n n 4096 0 0 defaults;
        left = [];
        delivered = start_msg n ∷ tests n defaults 0 8;
      }
  run-sweep zero c h w = absurd (omega arith)
  run-sweep (suc r) c h w =
      run-cons room all (rounds (suc r) 8 0) (start_msg (suc r)) c
        (testing (suc r) 0 32 8 0 defaults) (ping_of 1 32 ∷ []) (deliver-start (suc r) c)
      ∙ ap (noted (start_msg (suc r) ∷ []))
          (run-tests room all 7 0 r 7 defaults 0 (get_or-small defaults refl) refl (omega arith) w)

  -- The command `perf remote sweep`, with a count behind it or none, run beside its answering
  -- component with one queue between them, a buffer for every payload of at most 4096 bytes, and any
  -- state before, ends after one and sixteen times the count deliveries: for each of the eight sizes
  -- in turn, as many pings as asked, numbered from 1, each answered before the next is sent; then no
  -- message is on the way and the sweep is over.
  pub sweep_correct :
      (rest : CString) (h : Entries) (c : RPingCtx)
      → run room
          (suc (16 * swept rest))
          c
          (requests (run_line (codes "perf remote sweep" ++ rest) h).1)
        ≡ record {
          ctx = testing (swept rest) (swept rest) 4096 0 0 defaults;
          left = [];
          delivered = start_msg (swept rest) ∷ tests (swept rest) defaults 0 8;
        }
  sweep_correct rest h c =
      let n = or_default-bound _ (second_number-bound (scan_u rest) (scan_u-FitsWord rest)) in
      ap (λ q. run room (suc (16 * swept rest)) c q) (sweep-action rest h)
      ∙ ap (λ f. run room (suc f) c (start_msg (swept rest) ∷ [])) (sym (rounds-eq (swept rest)))
      ∙ run-sweep (swept rest) c n.0 n.1
