-- ===== src/Perf/Local.antt =====
-- src/components/perf/ping.c and pong.c: the test between two components of one process.
use codex_nos.Base.{ℕ, Bool, List, [], ◌∷◌, ltb, leb, ◌==◌, if◌then◌else◌, add32}
use codex_nos.Perf.{Msg, word_at}

-- `ping_ctx_t`
pub record PingCtx : Type 0 where
  pub target_count : ℕ
  pub current_count : ℕ

-- A message with a service and a code; the number, which these components do not write, is 0.
abbrev pub bare_msg : ℕ → ℕ → Msg
bare_msg service code = record {
  dst_service = service;
  msg_code = code;
  seq = 0;
  payload_len = 0;
  words = [];
}

-- `has_buffer`: the pool has a buffer without payload.
module _ (has_buffer : Bool) where
  abbrev pub send_ping : List Msg
  send_ping = if has_buffer then bare_msg 112 2001 ∷ [] else []

  -- `comp_on_msg` of ping.c.
  unfoldable pub ping : Msg → PingCtx → PingCtx × List Msg
  ping m c =
      let next = record c { current_count = add32 c.current_count 1 } in
      if m.msg_code == 3001
      then (
        record {
          target_count = if leb 4 m.payload_len then word_at m 0 else 100000;
          current_count = 0;
        },
        send_ping,
      )
      else if m.msg_code == 2002
      then (next, (if ltb next.current_count next.target_count then send_ping else []))
      else (c, [])

  -- `comp_on_msg` of pong.c.
  unfoldable pub pong : Msg → List Msg
  pong m = if m.msg_code == 2001 then (if has_buffer then bare_msg 111 2002 ∷ [] else []) else []
