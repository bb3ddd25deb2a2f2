-- ===== src/Perf/Exchange.antt =====
-- src/components/perf: remote_ping.c beside remote_pong.c, with the messages in one queue. What has
-- the service of the pong goes to the pong, and everything else, replies included, to the ping.
use codex_nos.Base.{ℕ, zero, suc, Bool, List, [], ◌∷◌, ◌++◌, ◌==◌, if◌then◌else◌}
use codex_nos.Perf.{Msg, RPingCtx, remote_ping, remote_pong}

-- Where a run ends: the context of the ping, the messages on the way, and those delivered.
pub record Run : Type 0 where
  pub ctx : RPingCtx
  pub left : List Msg
  pub delivered : List Msg

-- Messages that were delivered before a run.
abbrev pub noted : List Msg → Run → Run
noted ms r = record r { delivered = ms ++ r.delivered }

module _ (room : ℕ → Bool) where
  unfoldable pub deliver : Msg → RPingCtx → RPingCtx × List Msg
  deliver m c = if m.dst_service == 114 then (c, remote_pong room m) else remote_ping room m c

  -- The delivery of messages, as many as the first argument says at most.
  unfoldable pub run : ℕ → RPingCtx → List Msg → Run
  unfolding deliver
  run zero c q = record { ctx = c; left = q; delivered = [] }
  run (suc n) c [] = record { ctx = c; left = []; delivered = [] }
  run (suc n) c (m ∷ q) = let r = deliver m c in noted (m ∷ []) (run n r.0 (q ++ r.1))
