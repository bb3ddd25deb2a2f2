-- ===== src/Ipc/Events.antt =====
-- src/infra/nos_ipc_p2p.c, `nos_ipc_event_handler`: the send queue first, then what has arrived, if
-- the connection is still up. The descriptor of the event is not negative.
use codex_nos.Base.{ℕ, Bool, Option, List, if◌then◌else◌, CString}
use codex_nos.Buffer.{BufPtr}
use codex_nos.Services.Route.{ServiceMsg}
use codex_nos.Shm.{Channel, Region}
use codex_nos.Ipc.{Conn, Net}
use codex_nos.Ipc.Send.{SendResult, live, process_tx}
use codex_nos.Ipc.Receive.{Peek, recv_handler}

module _ (msg_send : BufPtr → Conn → Net → Conn × Net) (conn_id : ℕ) where
  unfoldable pub event_handler :
      List SendResult
      → (List ℕ → ServiceMsg)
      → CString × CString
      → Option (Channel × Region)
      → List ℕ
      → Bool
      → Peek
      → Conn
      → Net
      → Conn × Net
  unfolding process_tx recv_handler
  event_handler sends parse setup opened bytes whole peek c net =
      let (c1, net1) = process_tx c net sends in
      let received = recv_handler msg_send conn_id parse setup opened bytes whole c1 net1 peek in
      if live c1 then received else (c1, net1)
