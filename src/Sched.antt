-- ===== src/Sched.antt =====
-- src/core/nos_scheduler.c, the thread object: its components, its file descriptors, its message
-- queue and its timer heap, and the operations on the first two. The locks make each operation one
-- step. Components, callbacks and arguments are pointers, named by numbers. The allocations are
-- taken to succeed; the results of `epoll_ctl` and `eventfd` are parameters.

pub mod Queue
pub mod Timers
pub mod Loop
mod Tests
use codex_nos.Base.{
  ℕ, zero, suc, ◌+◌, ◌-◌, Bool, true, false, Option, none, some, List, [], ◌∷◌, ◌++◌, Status, ok,
  err, length, get_or, get_elem?, set, take, replicate, leb, ltb, ◌==◌, ◌&&◌, if◌then◌else◌,
  CString,
}
use codex_nos.Buffer.{BufPtr}

-- `nos_fd_entry_t`
pub record FdEntry : Type 0 where
  pub fd : ℕ
  pub callback : ℕ
  pub arg : ℕ

abbrev pub null_entry : FdEntry
null_entry = record { fd = 0; callback = 0; arg = 0 }

-- `nos_thread_t`: `components`, `fd_entries` and `nodes` are the used entries of their arrays,
-- and `notified` counts the writes to `notify_fd`.
pub record Thread : Type 0 where
  pub thread_id : ℕ
  pub name : CString
  pub stop_requested : Bool
  pub is_sleeping : Bool
  pub notified : ℕ
  pub msg_queue : List BufPtr
  pub head : ℕ
  pub tail : ℕ
  pub components : List ℕ
  pub fd_entries : List FdEntry
  pub nodes : List ℕ
  pub timer_capacity : ℕ

abbrev pub max_queue_size : ℕ
max_queue_size = 1024

abbrev pub max_comp_per_thread : ℕ
max_comp_per_thread = 32

abbrev pub max_fds : ℕ
max_fds = 32

abbrev pub null_buf : BufPtr
null_buf = (0, 0)

-- `nos_scheduler_init_thread`; `notify_ok` says that `eventfd` gives a descriptor.
unfoldable pub init_thread : Bool → Thread → ℕ → CString → Status × Thread
init_thread notify_ok t id name =
    let opened = record t {
      thread_id = id;
      name = name;
      components = [];
      fd_entries = [];
      msg_queue = replicate max_queue_size null_buf;
      head = 0;
      tail = 0;
      stop_requested = false;
      is_sleeping = false;
      notified = 0;
    } in
    if notify_ok then (ok, record opened { timer_capacity = 128; nodes = [] }) else (err, opened)

-- `write(thread->notify_fd, ...)`
abbrev pub notify : Thread → Thread
notify t = record t { notified = t.notified + 1 }

-- The index of an entry, found from the front.
abbrev pub index_of : List ℕ → ℕ → Option ℕ
index_of [] x = none
index_of (y ∷ ys) x =
    let rest = index_of ys x in
    if y == x then some 0 else elim rest [ none ↦ none | some i ↦ some (suc i) ]

abbrev has : List ℕ → ℕ → Bool
has ys x = elim (index_of ys x) [ none ↦ false | some i ↦ true ]

-- `find_thread_of_component`: the management thread, when it is there, is the first of the
-- threads, and the workers follow.
unfoldable pub find_thread_of_component : List Thread → ℕ → Option ℕ
find_thread_of_component [] comp = none
find_thread_of_component (t ∷ ts) comp =
    let rest = find_thread_of_component ts comp in
    if has t.components comp then some 0 else elim rest [ none ↦ none | some i ↦ some (suc i) ]

-- `xs[i] = xs[--count];`
abbrev pub remove_swap {ℓ} : {A : Type ℓ} → A → List A → ℕ → List A
remove_swap d xs i = take (length xs - 1) (set xs i (get_or xs (length xs - 1) d))

-- `nos_scheduler_register_component`, its pointers not null.
unfoldable pub register_component : Thread → ℕ → Status × Thread
register_component t comp =
    if leb max_comp_per_thread (length t.components)
    then (err, t)
    else (ok, notify (record t { components = t.components ++ comp ∷ [] }))

-- `nos_scheduler_unregister_component`, its pointers not null.
unfoldable pub unregister_component : Thread → ℕ → Status × Thread
unregister_component t comp = elim (index_of t.components comp) [
  | none ↦ (err, t)
  | some i ↦ (ok, record t { components = remove_swap 0 t.components i })
]

-- `nos_scheduler_add_fd_ex`; `ctl_ok` says that `epoll_ctl` succeeds.
unfoldable pub add_fd : Bool → Thread → FdEntry → Status × Thread
add_fd ctl_ok t e =
    let added = record t { fd_entries = t.fd_entries ++ e ∷ [] } in
    if leb max_fds (length t.fd_entries)
    then (err, t)
    else if ctl_ok
    then (ok, added)
    else (err, added)

abbrev pub fd_index : List FdEntry → ℕ → Option ℕ
fd_index [] fd = none
fd_index (e ∷ es) fd =
    let rest = fd_index es fd in
    if e.fd == fd then some 0 else elim rest [ none ↦ none | some i ↦ some (suc i) ]

-- `nos_scheduler_remove_fd`
unfoldable pub remove_fd : Thread → ℕ → Status × Thread
remove_fd t fd = elim (fd_index t.fd_entries fd) [
  | none ↦ (err, t)
  | some i ↦ (ok, record t { fd_entries = remove_swap null_entry t.fd_entries i })
]

-- `nos_scheduler_stop`
unfoldable pub stop : Thread → Thread
stop t = notify (record t { stop_requested = true })
