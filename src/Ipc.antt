-- ===== src/Ipc.antt =====
-- src/infra/nos_ipc_p2p.c: the connections to other nodes, their state machine, retry times and
-- send queues. Each connection's lock makes its operations one step. What the sockets and the clock
-- give is a parameter: `fd` is none for -1, and the results of `send` are a list, in order, past whose
-- end the socket is full. Receiving is Ipc/Receive, and the table of connections Ipc/Conns.
pub mod Send
pub mod Receive
pub mod Conns
pub mod Listen
pub mod Events
pub mod Backoff
mod Tests
use codex_nos.Base.{
  ℕ, zero, suc, ◌+◌, ◌-◌, ◌*◌, ◌/◌, ◌%◌, Bool, true, false, not, ◌&&◌, ◌||◌, Option, none, some,
  List, [], ◌∷◌, ◌++◌, Status, ok, err, err_busy, length, get_or, get_elem?, set, take, replicate,
  leb, ltb, ◌==◌, if◌then◌else◌, CString, strncpy, add32, add64, mul32,
}
use codex_nos.Buffer.{BufPtr, Pool, retain, release}
use codex_nos.Sched.{Thread, FdEntry, add_fd, remove_fd}
use codex_nos.Services.Route.{ServiceMsg}
use codex_nos.Shm
use codex_nos.Shm.{Channel, Region, ShmStats}

-- `nos_ipc_conn_state_t`
pub data ConnState : Type 0 where
  disconnected connecting connected backoff : ConnState

abbrev pub is_connected_state : ConnState → Bool
is_connected_state connected = true
is_connected_state _ = false

abbrev pub is_backoff : ConnState → Bool
is_backoff backoff = true
is_backoff _ = false

-- `nos_ipc_conn_t`
pub record Conn : Type 0 where
  pub uds_path : CString
  pub fd : Option ℕ
  pub tx_queue : List BufPtr
  pub head : ℕ
  pub tail : ℕ
  pub is_connected : Bool
  pub state : ConnState
  pub next_retry_ms : ℕ
  pub retry_delay_ms : ℕ
  pub connect_fail_count : ℕ
  pub tx_packets : ℕ
  pub tx_bytes : ℕ
  pub tx_errors : ℕ
  pub rx_packets : ℕ
  pub rx_bytes : ℕ
  pub rx_errors : ℕ
  pub dropped_full : ℕ
  pub generation : ℕ
  pub is_passive : Bool
  pub remote_node : CString
  pub shm_name : CString
  pub shm : Option (Channel × Region)
  pub owner_thread : ℕ

-- `nos_ipc_stats_t`
pub record IpcStats : Type 0 where
  pub tx_packets : ℕ
  pub rx_packets : ℕ
  pub tx_bytes : ℕ
  pub rx_bytes : ℕ
  pub tx_errors : ℕ
  pub rx_errors : ℕ
  pub dropped_full : ℕ
  pub buffer_alloc_fails : ℕ

-- What the connections share: the buffers and their headers, the counters, and the threads that
-- watch the descriptors.
pub record Net : Type 0 where
  pub pool : Pool
  pub header : BufPtr → ServiceMsg
  pub data_of : BufPtr → List ℕ
  pub stats : IpcStats
  pub shm_stats : ShmStats
  pub threads : List Thread

abbrev pub tx_queue_size : ℕ
tx_queue_size = 1024

abbrev pub retry_initial_ms : ℕ
retry_initial_ms = 100

abbrev pub retry_max_ms : ℕ
retry_max_ms = 5000

abbrev pub null_buf : BufPtr
null_buf = (0, 0)

-- `sizeof(nos_service_msg_t)`
abbrev pub header_size : ℕ
header_size = 32

-- `ipc_queue_len`
unfoldable pub queue_len : Conn → ℕ
queue_len c = if leb c.head c.tail then c.tail - c.head else tx_queue_size - c.head + c.tail

-- `nos_scheduler_remove_fd` on the owner's thread.
abbrev unwatch : Conn → List Thread → List Thread
unwatch c threads = elim c.fd [
  | none ↦ threads
  | some fd ↦ elim (get_elem? threads c.owner_thread) [
    | none ↦ threads
    | some t ↦ set threads c.owner_thread (remove_fd t fd).1
  ]
]

-- `nos_ipc_mark_disconnected`
unfoldable pub mark_disconnected : Conn → Net → Conn × Net
mark_disconnected c net = (
  record c {
    fd = none;
    shm = none;
    is_connected = false;
    state = disconnected;
    generation = add32 c.generation 1;
  },
  record net { threads = unwatch c net.threads },
)

-- The delay that a failed connect waits.
abbrev pub delay_of : Conn → ℕ
delay_of c = if c.retry_delay_ms == 0 then retry_initial_ms else c.retry_delay_ms

-- `nos_ipc_mark_connect_failed`
unfoldable pub mark_connect_failed : ℕ → Conn → Conn
mark_connect_failed now c =
    let delay = delay_of c in
    record c {
      connect_fail_count = add32 c.connect_fail_count 1;
      retry_delay_ms = if leb (retry_max_ms / 2) delay then retry_max_ms else mul32 delay 2;
      next_retry_ms = add64 now delay;
      state = backoff;
      is_connected = false;
    }

-- `nos_ipc_event_handler`, as a callback.
abbrev pub event_handler : ℕ
event_handler = 1

-- `ipc_make_shm_name`, into an array of 64 bytes.
abbrev pub shm_name_of : CString → CString → CString
shm_name_of local remote = take 63 (
    (b'/' ∷ b'n' ∷ b'o' ∷ b's' ∷ b'_' ∷ b's' ∷ b'h' ∷ b'm' ∷ b'_' ∷ []) ++ (local ++ b'_' ∷ remote))

-- Whether a new connection sets up shared memory: it has none, and both nodes have names.
abbrev wants_shm : Option CString → Conn → Bool
wants_shm none c = false
wants_shm (some local) c = elim c.shm [
  | some s ↦ false
  | none ↦ elim c.remote_node [ [] ↦ false | b ∷ bs ↦ true ]
]

abbrev name_for : Option CString → Conn → CString
name_for none c = c.shm_name
name_for (some local) c = shm_name_of local c.remote_node

-- `nos_ipc_try_connect_locked`: `conn_id` is the index of the connection; `socket` is the connected
-- descriptor, if `socket` and `connect` succeed; `local` is the name of the node, if it is defined,
-- and `shm` what the creation of the channel gives, if it is tried. The control message about the
-- channel is left out.
unfoldable pub try_connect :
    ℕ → ℕ → Option ℕ → Option CString → Option (Channel × Region) → Conn → Net → Bool × Conn × Net
unfolding mark_connect_failed
try_connect conn_id now socket local shm c net =
    let opened = λ (fd : ℕ). record c {
      fd = some fd;
      is_connected = true;
      state = connected;
      generation = add32 c.generation 1;
      retry_delay_ms = retry_initial_ms;
      next_retry_ms = 0;
      connect_fail_count = 0;
      shm_name = if wants_shm local c then name_for local c else c.shm_name;
      shm = if wants_shm local c then shm else c.shm;
    } in
    let watched = λ (fd : ℕ). elim (get_elem? net.threads c.owner_thread) as (λ _. List Thread) [
      | none ↦ net.threads
      | some t ↦
          set net.threads c.owner_thread
            (add_fd true t (record { fd = fd; callback = event_handler; arg = conn_id })).1
    ] in
    if is_backoff c.state && ltb now c.next_retry_ms then (false, c, net) else elim socket [
      | none ↦ (false, mark_connect_failed now c, net)
      | some fd ↦ (true, opened fd, record net { threads = watched fd })
    ]
