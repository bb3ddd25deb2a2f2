-- ===== src/Ipc/Listen.antt =====
-- src/infra/nos_ipc_p2p.c, `nos_ipc_init` and `nos_ipc_accept_handler`: the side of a node that is
-- connected to. The results of the socket calls are arguments; what is closed is returned.
use codex_nos.Base.{ℕ, Bool, Option, none, some, Status, err, if◌then◌else◌, CString}
use codex_nos.Sched.{Thread, FdEntry, add_fd}
use codex_nos.Ipc.{Conn}
use codex_nos.Ipc.Conns.{Conns, create_passive_conn}

-- `nos_ipc_init`: `listener` is the descriptor of `socket`, if it gives one; the handler of the
-- entry is `nos_ipc_accept_handler`.
unfoldable pub ipc_init :
    Option FdEntry → (bind_ok listen_ok ctl_ok : Bool) → Thread → Option ℕ × Status × Thread
ipc_init none bind_ok listen_ok ctl_ok th = (none, err, th)
ipc_init (some e) bind_ok listen_ok ctl_ok th =
    let (st, th') = add_fd ctl_ok th e in
    if bind_ok
    then (if listen_ok then (none, st, th') else (some e.fd, err, th))
    else (some e.fd, err, th)

-- `nos_ipc_accept_handler`: `client` is the descriptor of `accept`, if it gives one, and `entry` is
-- the entry for a connection; that the thread may have no room for it is not looked at.
unfoldable pub accept_handler :
    Conn
    → Option ℕ
    → CString
    → (ℕ → FdEntry)
    → Bool
    → ℕ
    → Thread
    → Conns
    → Option ℕ × Thread × Conns
accept_handler null_conn none path entry ctl_ok i th t = (none, th, t)
accept_handler null_conn (some fd) path entry ctl_ok i th t =
    let (made, t') = create_passive_conn null_conn path fd i t in
    elim made [ none ↦ (some fd, th, t') | some c ↦ (none, (add_fd ctl_ok th (entry c)).1, t') ]
