-- ===== src/Ipc/Receive/Guard.antt =====
-- Whatever arrives, what holds of the send queue goes on to hold and the connection's marks agree.
use codex_nos.Base.{false, true, none, some, ℕ, ◌≡◌, Bool, not, Option, List, ◌==◌}
use codex_nos.Buffer.{BufPtr}
use codex_nos.Shm
use codex_nos.Ipc.{Conn, ConnState, is_connected_state}
use codex_nos.Ipc.Backoff.{has_fd}
use codex_nos.Ipc.Receive.{Peek, would_block, closed, header_of, ipc_magic}

-- `P` holds of the send queue of `c`, and the marks of `c` agree.
pub record Sound (P : List BufPtr → ℕ → ℕ → Type 0) (c : Conn) : Type 0 where
  pub queue : P c.tx_queue c.head c.tail
  pub flag : c.is_connected ≡ is_connected_state c.state
  pub open_fd : has_fd c ≡ is_connected_state c.state

-- Whether what is peeked ends the link: its end, or a header of another protocol.
abbrev pub ends_link : Peek → Bool
ends_link would_block = false
ends_link closed = true
ends_link (header_of m) = not (m.magic == ipc_magic)

-- What `Sound` reads of a connection.
abbrev Link : Type 0
Link = List BufPtr × ℕ × ℕ × Bool × ConnState × Option ℕ

abbrev link : Conn → Link
link c = (c.tx_queue, c.head, c.tail, c.is_connected, c.state, c.fd)

abbrev fd_open : Option ℕ → Bool
fd_open fd = elim fd [ none ↦ false | some n ↦ true ]
