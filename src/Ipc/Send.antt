-- ===== src/Ipc/Send.antt =====
-- src/infra/nos_ipc_p2p.c, the sending side: `nos_ipc_process_tx`, `nos_ipc_send_reply` and the
-- queueing of `nos_ipc_send_enqueue`. The loop of `nos_ipc_process_tx` takes fuel.
pub mod Fifo
use codex_nos.Base.{
  CString, ℕ, zero, suc, ◌+◌, ◌-◌, ◌%◌, Bool, true, false, not, ◌&&◌, ◌||◌, Option, none, some,
  List, [], ◌∷◌, Status, ok, err, err_busy, length, get_or, set, leb, ◌==◌, if◌then◌else◌, add64,
}
use codex_nos.Buffer.{BufPtr, Pool, retain, release}
use codex_nos.Services.Route.{ServiceMsg}
use codex_nos.Shm
use codex_nos.Shm.{Channel, Region, ShmStats}
use codex_nos.Ipc.{
  Conn, Net, IpcStats, tx_queue_size, null_buf, header_size, is_connected_state, mark_disconnected,
  try_connect,
}

-- A result of `send`: the whole message, `EAGAIN`, or any other.
pub data SendResult : Type 0 where
  sent_all again failed : SendResult

-- The message at the head sent: released, counted by the connection, and taken off.
abbrev pub popped : BufPtr → ℕ → Conn → Conn
popped buf full_len c = record c {
  tx_packets = add64 c.tx_packets 1;
  tx_bytes = add64 c.tx_bytes full_len;
  head = (c.head + 1) % tx_queue_size;
}

abbrev pub full_len_of : Net → BufPtr → ℕ
full_len_of net buf = header_size + (net.header buf).payload_len

-- The write to shared memory that `nos_ipc_process_tx` tries: the new region, if it is accepted.
unfoldable pub shm_try : Conn → Net → BufPtr → Option (Channel × Region) × ShmStats
unfolding Shm.write
shm_try c net buf = elim c.shm [
  | none ↦ (none, net.shm_stats)
  | some (ch, region) ↦
      let (st, ring, stats) = Shm.write (net.data_of buf) (Shm.tx ch region) net.shm_stats in
      let region' : Region =
        if ch.tx_ab then record region { ab = ring } else record region { ba = ring } in
      if (net.header buf).ipc_ctrl || not (leb (full_len_of net buf) Shm.slot_size)
      then (none, net.shm_stats)
      else (elim st [ ok ↦ some (ch, region') | _ ↦ none ], stats)
]

abbrev pub released : BufPtr → Net → Net
released buf net = record net { pool = release buf net.pool }

abbrev count_sent : ℕ → IpcStats → IpcStats
count_sent full_len st = record st {
  tx_packets = add64 st.tx_packets 1;
  tx_bytes = add64 st.tx_bytes full_len;
}

-- What a round of the loop does with the message at the head.
pub data Round : Type 0 where
  went : Conn → Net → List SendResult → Round
  stopped : Conn → Net → Round

-- A round of the loop of `nos_ipc_process_tx`.
unfoldable pub round : Conn → Net → List SendResult → Round
unfolding shm_try mark_disconnected
round c net sends =
    let buf = get_or c.tx_queue c.head null_buf in
    let full_len = full_len_of net buf in
    let (accepted, stats) = shm_try c net buf in
    let net1 = record net { shm_stats = stats } in
    elim accepted [
      | some region ↦
          went (record (popped buf full_len c) { shm = some region }) (released buf net1) sends
      | none ↦ elim sends [
        | [] ↦ stopped c net1
        | result ∷ rest ↦ elim result [
          | sent_all ↦
              went (popped buf full_len c)
                (record (released buf net1) { stats = count_sent full_len net1.stats }) rest
          | again ↦ stopped c net1
          | failed ↦
              let (c', net2) =
                mark_disconnected (record c { tx_errors = add64 c.tx_errors 1 }) net1 in
              stopped c' (record net2 {
                stats = record net2.stats { tx_errors = add64 net2.stats.tx_errors 1 };
              })
        ]
      ]
    ]

-- On to the next round, or the end.
abbrev pub go_on : (Conn → Net → List SendResult → Conn × Net) → Round → Conn × Net
go_on loop (went c net rest) = loop c net rest
go_on loop (stopped c net) = (c, net)

unfoldable pub tx_loop : ℕ → Conn → Net → List SendResult → Conn × Net
unfolding round
tx_loop zero c net sends = (c, net)
tx_loop (suc fuel) c net sends =
    let rest = go_on (tx_loop fuel) (round c net sends) in
    if c.head == c.tail then (c, net) else rest

abbrev pub live : Conn → Bool
live c = is_connected_state c.state && elim c.fd [ none ↦ false | some fd ↦ true ]

-- `nos_ipc_process_tx`
unfoldable pub process_tx : Conn → Net → List SendResult → Conn × Net
unfolding tx_loop
process_tx c net sends = if live c then tx_loop tx_queue_size c net sends else (c, net)

-- The queueing that `nos_ipc_send_reply` and `nos_ipc_send_enqueue` share: the message is dropped
-- when the queue is full.
unfoldable pub enqueue : BufPtr → Conn → Net → Status × Conn × Net
enqueue buf c net =
    if (c.tail + 1) % tx_queue_size == c.head
    then (
      err_busy,
      record c { dropped_full = add64 c.dropped_full 1 },
      record net { stats = record net.stats { dropped_full = add64 net.stats.dropped_full 1 } },
    )
    else (
      ok,
      record c { tx_queue = set c.tx_queue c.tail buf; tail = (c.tail + 1) % tx_queue_size },
      record net { pool = retain buf net.pool },
    )

abbrev is_ok : Status → Bool
is_ok ok = true
is_ok _ = false

-- `nos_ipc_send_reply`, its pointers not null.
unfoldable pub send_reply : ℕ → BufPtr → Conn → Net → List SendResult → Status × Conn × Net
unfolding enqueue process_tx
send_reply generation buf c net sends =
    let (st, c', net') = enqueue buf c net in
    let (c'', net'') = process_tx c' net' sends in
    if live c && c.generation == generation
    then if is_ok st then (ok, c'', net'') else (st, c', net')
    else (err, c, net)

-- `nos_ipc_send_enqueue`, on the connection that `get_or_create_conn` gives, of index `conn_id`.
unfoldable pub send_enqueue :
    ℕ
    → ℕ
    → Option ℕ
    → Option CString
    → Option (Channel × Region)
    → BufPtr
    → Conn
    → Net
    → List SendResult
    → Status × Conn × Net
unfolding enqueue process_tx try_connect
send_enqueue conn_id now socket local shm buf c net sends =
    let (st, c1, net1) = enqueue buf c net in
    let (done, c2, net2) = try_connect conn_id now socket local shm c1 net1 in
    let c3 : Conn = if live c1 then c1 else c2 in
    let net3 : Net = if live c1 then net1 else net2 in
    let (c4, net4) = process_tx c3 net3 sends in
    if is_ok st
    then if is_connected_state c3.state then (ok, c4, net4) else (ok, c3, net3)
    else (st, c1, net1)
