-- ===== src/Perf.antt =====
-- src/components/perf: remote_ping.c and remote_pong.c, the test of the way to another process, and
-- ping.c and pong.c, the test inside one. The clock and the log are left out, and so are the fill
-- bytes of a ping. What is sent is returned; `room` says for which lengths of payload the pool has a
-- buffer.
pub mod Exchange
pub mod Sweep
pub mod Command
pub mod Local
mod Tests
use codex_nos.Base.{
  ℕ, zero, suc, Bool, true, false, List, [], ◌∷◌, get_or, ltb, leb, ◌==◌, if◌then◌else◌, add32, ◌^◌,
  ◌-◌,
}

-- A message as these components read and write it; `words` is its payload as 32-bit words.
pub record Msg : Type 0 where
  pub dst_service : ℕ
  pub msg_code : ℕ
  pub seq : ℕ
  pub payload_len : ℕ
  pub words : List ℕ

-- `rping_ctx_t`
pub record RPingCtx : Type 0 where
  pub target_count : ℕ
  pub current_count : ℕ
  pub payload_size : ℕ
  pub sweep_count : ℕ
  pub sweep_index : ℕ
  pub sweep_sizes : List ℕ

abbrev pub ping_msg : RPingCtx → Msg
ping_msg c = record {
  dst_service = 114;
  msg_code = 2001;
  seq = add32 c.current_count 1;
  payload_len = c.payload_size;
  words = [];
}

-- The `UINT32_MAX` that asks for a sweep, and the sizes of one.
abbrev pub sweep_mark : ℕ
sweep_mark = 2 ^ 32 - 1

abbrev pub defaults : List ℕ
defaults = 32 ∷ 64 ∷ 128 ∷ 256 ∷ 512 ∷ 1024 ∷ 2048 ∷ 4096 ∷ []

abbrev pub word_at : Msg → ℕ → ℕ
word_at m i = get_or m.words i 0

-- The pong of remote_pong.c, which is sent as a reply.
abbrev pub reply_msg : Msg → Msg
reply_msg m = record m { dst_service = 0; msg_code = 2002 }

module _ (room : ℕ → Bool) where
  abbrev pub send_ping : RPingCtx → List Msg
  send_ping c = if room c.payload_size then ping_msg c ∷ [] else []

  abbrev pub start_one_test : ℕ → RPingCtx → RPingCtx × List Msg
  start_one_test size c =
      let c' = record c { payload_size = size; current_count = 0 } in (c', send_ping c')

  -- The `START_TEST` of remote_ping.c's `comp_on_msg`.
  abbrev pub on_start : Msg → RPingCtx → RPingCtx × List Msg
  on_start m c =
      let requested = if leb 8 m.payload_len then word_at m 1 else 0 in
      let c' = record c {
        target_count = if leb 4 m.payload_len then word_at m 0 else 100000;
        sweep_count = 0;
        sweep_index = 0;
      } in
      if requested == sweep_mark
      then start_one_test (get_or defaults 0 0)
          (record c' { sweep_count = 8; sweep_sizes = defaults })
      else start_one_test requested c'

  -- After the last pong of a test.
  abbrev pub next_test : RPingCtx → RPingCtx × List Msg
  next_test c =
      let c' = record c { sweep_index = add32 c.sweep_index 1 } in
      if ltb 0 c.sweep_count
      then (if ltb c'.sweep_index c.sweep_count
          then start_one_test (get_or c.sweep_sizes c'.sweep_index 0) c'
          else (record c { sweep_count = 0; sweep_index = 0 }, []))
      else (record c { sweep_count = 0; sweep_index = 0 }, [])

  abbrev pub on_pong : RPingCtx → RPingCtx × List Msg
  on_pong c =
      let c' = record c { current_count = add32 c.current_count 1 } in
      if ltb c'.current_count c.target_count then (c', send_ping c') else next_test c'

  -- `comp_on_msg` of remote_ping.c.
  unfoldable pub remote_ping : Msg → RPingCtx → RPingCtx × List Msg
  remote_ping m c =
      if m.msg_code == 3001 then on_start m c else if m.msg_code == 2002 then on_pong c else (c, [])

  -- `comp_on_msg` of remote_pong.c.
  unfoldable pub remote_pong : Msg → List Msg
  remote_pong m =
      if m.msg_code == 2001 then (if room m.payload_len then reply_msg m ∷ [] else []) else []
