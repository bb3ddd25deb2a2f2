-- ===== src/Ipc/Receive.antt =====
-- src/infra/nos_ipc_p2p.c, the receiving side: `ipc_deliver_rx_data`, `ipc_handle_ctrl_msg` and
-- `nos_ipc_recv_handler`, on a connection that is not null. What `recv` gives is a parameter; so are
-- `nos_service_msg_send`, modelled in Services/Route, and the opening of a channel, in Shm.
pub mod Guard
use codex_nos.Base.{
  ℕ, zero, suc, ◌+◌, Bool, true, false, not, ◌&&◌, ◌||◌, Option, none, some, List, [], ◌∷◌, length,
  leb, ltb, ◌==◌, if◌then◌else◌, CString, strncpy, add64,
}
use codex_nos.Buffer.{Buffer, BufPtr, Pool, alloc, release, modify_bin, set_buffer}
use codex_nos.Reply.{ctx_create}
use codex_nos.Services.Route.{ServiceMsg, same_buf}
use codex_nos.Shm
use codex_nos.Shm.{Channel, Region, Ring}
use codex_nos.Ipc.{Conn, Net, header_size, mark_disconnected}

abbrev pub max_payload_len : ℕ
max_payload_len = 4096

abbrev pub ctrl_shm_setup : ℕ
ctrl_shm_setup = 1397247281

abbrev pub ctrl_shm_notify : ℕ
ctrl_shm_notify = 1397247282

-- `sizeof(nos_ipc_shm_setup_t)`
abbrev pub setup_size : ℕ
setup_size = 96

abbrev pub rx_failed : Conn → Conn
rx_failed c = record c { rx_errors = add64 c.rx_errors 1 }

abbrev pub count_rx_error : Net → Net
count_rx_error net = record net {
  stats = record net.stats { rx_errors = add64 net.stats.rx_errors 1 };
}

abbrev count_alloc_fail : Net → Net
count_alloc_fail net = record net {
  stats = record net.stats { buffer_alloc_fails = add64 net.stats.buffer_alloc_fails 1 };
}

-- The peek of `nos_ipc_recv_handler`, and the receive after it.
pub data Peek : Type 0 where
  would_block : Peek
  closed : Peek
  header_of : ServiceMsg → Peek

abbrev pub ipc_magic : ℕ
ipc_magic = 20047

-- `msg_send` is `nos_service_msg_send`, which may queue on this connection, send on it and close it;
-- `conn_id` is the index of the connection.
module _ (msg_send : BufPtr → Conn → Net → Conn × Net) (conn_id : ℕ) where
  -- The message in its new buffer, with a reply context, counted, sent on and released.
  abbrev handed_on : BufPtr → ServiceMsg → List ℕ → Conn → Net → Conn × Net
  handed_on buf m bytes c net =
      let (ctx, ctxs) =
        ctx_create net.pool.ctxs (some conn_id) c.generation m.seq m.src_component in
      let bins =
        modify_bin buf.0 (set_buffer buf.1 (λ (b : Buffer). record b { reply_ctx = some ctx }))
          net.pool.bins in
      let full_len = header_size + m.payload_len in
      let arrived : Net = record net {
        pool = record { bins = bins; ctxs = ctxs };
        header = λ b. if same_buf b buf then m else net.header b;
        data_of = λ b. if same_buf b buf then bytes else net.data_of b;
        stats = record net.stats {
          rx_packets = add64 net.stats.rx_packets 1;
          rx_bytes = add64 net.stats.rx_bytes full_len;
        };
      } in
      let counted : Conn = record c {
        rx_packets = add64 c.rx_packets 1;
        rx_bytes = add64 c.rx_bytes full_len;
      } in
      let (c', sent) = msg_send buf counted arrived in
      (c', record sent { pool = release buf sent.pool })

  -- `ipc_deliver_rx_data`: `bytes` are the data and `m` the header that they begin with.
  unfoldable pub deliver_rx_data : List ℕ → ServiceMsg → Conn → Net → Conn × Net
  deliver_rx_data bytes m c net =
      let full_len = header_size + m.payload_len in
      let (got, pool) = alloc full_len 0 net.pool in
      let net1 : Net = record net { pool = pool } in
      let delivered : Conn × Net = elim got [
        | none ↦ (rx_failed c, count_alloc_fail net1)
        | some buf ↦ handed_on buf m bytes c net1
      ] in
      if ltb (length bytes) header_size
      then (c, net)
      else if ltb max_payload_len m.payload_len || not (length bytes == full_len)
      then (rx_failed c, count_rx_error net)
      else delivered

  -- The packets of a drained channel, each delivered. Only the ring that is read changes: what
  -- `msg_send` leaves of the channel else stays. A `msg_send` that closes the channel leaves the
  -- drain with freed memory; here it goes on with the packets of the ring, and the channel is gone.
  abbrev deliver_packet : (List ℕ → ServiceMsg) → List ℕ → Conn × Net → Conn × Net
  deliver_packet parse bytes (c, net) = deliver_rx_data bytes (parse bytes) c net

  abbrev read_back : Channel → Ring → Channel × Region → Channel × Region
  read_back ch ring (ch', region) =
      (ch', if ch.tx_ab then record region { ba = ring } else record region { ab = ring })

  abbrev drain_channel : (List ℕ → ServiceMsg) → Channel × Region → Conn → Net → Conn × Net
  drain_channel parse (ch, region) c net =
      let (n, ring, (c', net'), stats) =
        Shm.drain (deliver_packet parse) Shm.slot_count (Shm.rx ch region) (c, net) net.shm_stats
          0 in
      (
        record c' { shm = elim c'.shm [ none ↦ none | some s ↦ some (read_back ch ring s) ] },
        record net' { shm_stats = stats },
      )

  -- `ipc_handle_ctrl_msg`: `setup` is the payload of a set-up message, its channel's name and the
  -- peer, and `opened` what the opening of that channel gives.
  unfoldable pub handle_ctrl_msg :
      (List ℕ → ServiceMsg)
      → CString × CString
      → Option (Channel × Region)
      → ServiceMsg
      → Conn
      → Net
      → Conn × Net
  unfolding deliver_rx_data
  handle_ctrl_msg parse (name, peer) opened m c net =
      let attached = record c {
        remote_node = strncpy 31 peer;
        shm_name = strncpy 63 name;
        shm = elim c.shm [ some s ↦ some s | none ↦ opened ];
      } in
      let notified : Conn × Net = elim c.shm [
        | none ↦ (c, net)
        | some s ↦ drain_channel parse s c net
      ] in
      if m.msg_code == ctrl_shm_setup && leb setup_size m.payload_len
      then (attached, net)
      else if m.msg_code == ctrl_shm_notify
      then notified
      else (c, net)

  -- `nos_ipc_recv_handler`: `bytes` are what the second `recv` gives, whole when `whole` says so.
  unfoldable pub recv_handler :
      (List ℕ → ServiceMsg)
      → CString × CString
      → Option (Channel × Region)
      → List ℕ
      → Bool
      → Conn
      → Net
      → Peek
      → Conn × Net
  unfolding handle_ctrl_msg deliver_rx_data mark_disconnected
  recv_handler parse setup opened bytes whole c net would_block = (c, net)
  recv_handler parse setup opened bytes whole c net closed = mark_disconnected c net
  recv_handler parse setup opened bytes whole c net (header_of m) =
      let (got, pool) = alloc (header_size + m.payload_len) 0 net.pool in
      let net1 : Net = record net { pool = pool } in
      let handled : Conn × Net =
        if m.ipc_ctrl
        then handle_ctrl_msg parse setup opened m c net1
        else deliver_rx_data bytes m c net1 in
      let (c2, net2) = if whole then handled else (rx_failed c, count_rx_error net1) in
      let received : Conn × Net = elim got [
        | none ↦ (rx_failed c, count_alloc_fail net1)
        | some buf ↦ (c2, record net2 { pool = release buf net2.pool })
      ] in
      if not (m.magic == ipc_magic)
      then mark_disconnected (rx_failed c) net
      else if ltb max_payload_len m.payload_len
      then (rx_failed c, count_rx_error net)
      else received
