-- ===== src/Ipc/Conns.antt =====
-- src/infra/nos_ipc_p2p.c, the table of connections: `get_or_create_conn` and `create_passive_conn`.
-- `g_remote_conns` keeps its 16 entries; a slot that is taken again keeps what is not set.
use codex_nos.Base.{
  ℕ, ◌+◌, true, false, Option, none, some, List, get_or, set, find_index, leb, if◌then◌else◌,
  CString, str_eq, strncpy,
}
use codex_nos.Ipc.{Conn, disconnected, connected, retry_initial_ms}

-- `g_remote_conns` and `g_remote_conn_count`
pub record Conns : Type 0 where
  pub conns : List Conn
  pub count : ℕ

abbrev pub max_remote_conns : ℕ
max_remote_conns = 16

-- The fields that both functions set.
abbrev pub reset_conn : Conn → Conn
reset_conn c = record c {
  head = 0;
  tail = 0;
  next_retry_ms = 0;
  retry_delay_ms = retry_initial_ms;
  connect_fail_count = 0;
  tx_packets = 0;
  tx_bytes = 0;
  tx_errors = 0;
  rx_packets = 0;
  rx_bytes = 0;
  rx_errors = 0;
  dropped_full = 0;
  generation = 1;
}

abbrev pub active_conn : Option CString → CString → ℕ → Conn → Conn
active_conn node path mgmt c = record (reset_conn c) {
  uds_path = strncpy 107 path;
  remote_node = elim node [ none ↦ c.remote_node | some n ↦ strncpy 31 n ];
  fd = none;
  is_connected = false;
  state = disconnected;
  is_passive = false;
  owner_thread = mgmt;
}

-- `passive_path` is the text that `snprintf` makes of the descriptor.
abbrev pub passive_conn : CString → ℕ → ℕ → Conn → Conn
passive_conn passive_path fd thread c = record (reset_conn c) {
  uds_path = passive_path;
  fd = some fd;
  is_connected = true;
  state = connected;
  is_passive = true;
  owner_thread = thread;
}

module _ (null_conn : Conn) where
  abbrev pub conn_at : Conns → ℕ → Conn
  conn_at t i = get_or t.conns i null_conn

  -- A slot at the end of the table, set up.
  abbrev pub new_conn : (Conn → Conn) → Conns → Option ℕ × Conns
  new_conn f t = if leb max_remote_conns t.count then (none, t) else (
    some t.count,
    record { conns = set t.conns t.count (f (conn_at t t.count)); count = t.count + 1 },
  )

  -- `get_or_create_conn`
  unfoldable pub get_or_create_conn : Option CString → CString → ℕ → Conns → Option ℕ × Conns
  get_or_create_conn node path mgmt t =
      elim (find_index (λ i. str_eq (conn_at t i).uds_path path) t.count) [
        | some i ↦ (some i, t)
        | none ↦ new_conn (active_conn node path mgmt) t
      ]

  -- `create_passive_conn`
  unfoldable pub create_passive_conn : CString → ℕ → ℕ → Conns → Option ℕ × Conns
  create_passive_conn passive_path fd thread t = new_conn (passive_conn passive_path fd thread) t
