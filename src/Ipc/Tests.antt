-- ===== src/Ipc/Tests.antt =====
-- The properties of the connections at concrete connections.
use codex_nos.Base.{
  length, ◌<◌, ℕ, ◌*◌, ◌^◌, ◌≡◌, refl, true, false, none, some, List, [], ◌∷◌, length-replicate,
  replicate, add64, arith,
}
use codex_nos.Buffer.{BufPtr, init_bin}
use codex_nos.Services.Route.{ServiceMsg}
use codex_nos.Ipc.{Conn, Net, disconnected, connected, backoff, is_backoff, try_connect}
use codex_nos.Ipc.Backoff.{IsCoherent, failures, capped, failures-delay, try_connect_correct}
use codex_nos.Ipc.Send.{enqueue, sent_all, failed, live, process_tx}
use codex_nos.Ipc.Send.Fifo.{IsTxQueue, SentSpec, to_send, process_tx_correct, process_tx-empties}
use codex_nos.Ipc.Receive.{header_of, recv_handler}

abbrev message : ServiceMsg
message = record {
  magic = 20047;
  dst_service = 7;
  src_component = 2;
  dst_component = 0;
  msg_code = 1;
  seq = 9;
  reply = false;
  ipc_ctrl = false;
  payload_len = 4;
}

abbrev net1 : Net
net1 = record {
  pool = record { bins = []; ctxs = [] };
  header = λ b. message;
  data_of = λ b. [];
  stats = record {
    tx_packets = 0;
    rx_packets = 0;
    tx_bytes = 0;
    rx_bytes = 0;
    tx_errors = 0;
    rx_errors = 0;
    dropped_full = 0;
    buffer_alloc_fails = 0;
  };
  shm_stats = record {
    tx_packets = 0;
    rx_packets = 0;
    tx_bytes = 0;
    rx_bytes = 0;
    ring_full = 0;
    fallback_uds = 0;
    open_errors = 0;
  };
  threads = [];
}

-- A connection that is down, with two messages in its queue.
abbrev down1 : Conn
down1 = record {
  uds_path = 47 ∷ 97 ∷ [];
  fd = none;
  tx_queue = replicate 1024 (0, 3);
  head = 1023;
  tail = 1;
  is_connected = false;
  state = disconnected;
  next_retry_ms = 0;
  retry_delay_ms = 100;
  connect_fail_count = 0;
  tx_packets = 0;
  tx_bytes = 0;
  tx_errors = 0;
  rx_packets = 0;
  rx_bytes = 0;
  rx_errors = 0;
  dropped_full = 0;
  generation = 1;
  is_passive = false;
  remote_node = [];
  shm_name = [];
  shm = none;
  owner_thread = 0;
}

abbrev up1 : Conn
up1 = record down1 { fd = some 8; is_connected = true; state = connected }

up1-IsTxQueue : IsTxQueue up1
up1-IsTxQueue = record {
  size = length-replicate {A = BufPtr} 1024 (0, 3);
  head_lt = omega arith;
  tail_lt = omega arith;
}

process_tx_correct_example : SentSpec up1 net1 (process_tx up1 net1 (sent_all ∷ failed ∷ []))
process_tx_correct_example = process_tx_correct up1 net1 (sent_all ∷ failed ∷ []) up1-IsTxQueue

process_tx-empties_example : to_send (process_tx up1 net1 (replicate 2 sent_all)).0 ≡ []
process_tx-empties_example = process_tx-empties up1 net1 2 up1-IsTxQueue refl (omega arith)

abbrev waits : Conn
waits = record down1 { state = backoff; next_retry_ms = 500 }

waits-IsCoherent : IsCoherent waits
waits-IsCoherent = record { flag = refl; open_fd = refl }

try_connect_correct_example :
    IsCoherent (try_connect 0 600 (some 8) none none waits net1).1
    × (live (try_connect 0 600 (some 8) none none waits net1).1 ≡ true)
try_connect_correct_example =
    try_connect_correct 0 600 (some 8) none none waits net1 waits-IsCoherent refl

abbrev every_second : ℕ → ℕ
every_second n = 1000 * n

failures-delay_example :
    ((failures every_second 3 down1).retry_delay_ms ≡ capped (100 * 2 ^ 3))
    × ((failures every_second 4 down1).next_retry_ms ≡ add64 3000 (capped (100 * 2 ^ 3)))
    × (is_backoff (failures every_second 4 down1).state ≡ true)
failures-delay_example = failures-delay every_second 3 down1 refl

-- A `nos_service_msg_send` that queues every message on the connection it came from.
abbrev send_back : BufPtr → Conn → Net → Conn × Net
unfolding enqueue
send_back b c net = let (st, c', net') = enqueue b c net in (c', net')

-- The queue has its size and its marks lie in it.
abbrev WholeQueue : List BufPtr → ℕ → ℕ → Type 0
WholeQueue queue head tail = (length queue ≡ 1024) × (head < 1024) × (tail < 1024)

abbrev parse : List ℕ → ServiceMsg
parse bytes = message

-- A connection over which a message of 4 bytes comes, with a pool that has room for it.
abbrev net2 : Net
net2 = record net1 { pool = record { bins = init_bin 0 128 4 ∷ []; ctxs = [] } }

-- The message arrives in a new buffer, and the answer to it stands in the queue.
sent_back :
    (recv_handler send_back 0 parse
      ([], [])
      none
      (replicate 36 0)
      true
      up1
      net2
      (header_of message)).0.tail
    ≡ 2
unfolding recv_handler enqueue codex_nos.Buffer.alloc init_bin
sent_back = refl
