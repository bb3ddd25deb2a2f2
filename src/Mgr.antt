-- ===== src/Mgr.antt =====
-- src/mgr/nos_mgr_main.c, the manager that starts, stops and watches the node processes. Its system
-- calls are the operations of `Os`, over a state of the system; what it prints is a list of notes.
-- A pid of 0 stands for -1, and for a fork that fails. The child of a fork runs another program and
-- is left out, as is the text of `show nodes`.
pub mod Parse
pub mod Commands
pub mod Held
pub mod Children
pub mod Session
pub mod Control
mod Tests
use codex_nos.Base.{
  ℕ, zero, suc, ◌+◌, Bool, true, false, not, Option, none, some, List, [], ◌∷◌, ◌++◌, ◌||◌, length,
  get_or, set, find_index, map, take, ◌==◌, if◌then◌else◌, CString, str_eq,
}

-- `nos_mgr_node_def_t`
pub record NodeDef : Type 0 where
  pub name : CString
  pub binary : CString
  pub uds_path : CString

-- `mgr_node_state_t`
pub data NodeState : Type 0 where
  node_stopped node_running node_exited : NodeState

abbrev pub is_running : NodeState → Bool
is_running node_running = true
is_running node_stopped = false
is_running node_exited = false

-- `mgr_node_t`
pub record MgrNode : Type 0 where
  pub def : NodeDef
  pub pid : ℕ
  pub state : NodeState
  pub started_at : ℕ
  pub exit_status : ℕ

-- The system calls. `waitpid` is the call with WNOHANG, and gives a status when it returns the pid;
-- `wait_for` is the call that waits.
pub record Os (S : Type 0) : Type 0 where
  pub waitpid : ℕ → S → Option ℕ × S
  pub wait_for : ℕ → S → ℕ × S
  pub executable : CString → S → Bool
  pub fork : S → ℕ × S
  pub kill : ℕ → ℕ → S → Bool × S
  pub time : S → ℕ
  pub usleep : S → S

-- What the manager prints.
pub data Note : Type 0 where
  unknown_node : CString → Note
  already_running : CString → ℕ → Note
  not_executable : CString → Note
  start_failed : CString → Note
  started : CString → ℕ → Note
  not_running : CString → Note
  stop_failed : CString → Note
  stopped : CString → Note
  killed : CString → Note
  help_text : Note
  table : List MgrNode → Note
  unknown_command : CString → Note

-- `g_nodes` and `g_keep_running`, with the system and the output.
pub record Mgr (S : Type 0) : Type 0 where
  pub nodes : List MgrNode
  pub keep_running : Bool
  pub sys : S
  pub printed : List Note

abbrev pub mgr_max_nodes : ℕ
mgr_max_nodes = 32

abbrev pub sigterm : ℕ
sigterm = 15

abbrev pub sigkill : ℕ
sigkill = 9

abbrev pub no_def : NodeDef
no_def = record { name = []; binary = []; uds_path = [] }

abbrev pub fresh_node : NodeDef → MgrNode
fresh_node def = record {
  def = def;
  pid = 0;
  state = node_stopped;
  started_at = 0;
  exit_status = 0;
}

-- `mgr_init_nodes`
unfoldable pub init_nodes : List NodeDef → List MgrNode
init_nodes defs = map fresh_node (take mgr_max_nodes defs)

abbrev pub node_at : List MgrNode → ℕ → MgrNode
node_at nodes i = get_or nodes i (fresh_node no_def)

abbrev is_empty : CString → Bool
is_empty [] = true
is_empty (c ∷ s) = false

-- `find_node`, as an index.
unfoldable pub find_node : List MgrNode → CString → Option ℕ
find_node nodes name =
    if is_empty name
    then none
    else find_index (λ i. str_eq (node_at nodes i).def.name name) (length nodes)

-- A node whose process has ended with `status`.
abbrev pub ended : NodeState → ℕ → MgrNode → MgrNode
ended state status n = record n { exit_status = status; pid = 0; state = state }

module _ {S : Type 0} (os : Os S) where
  -- `refresh_node`, its pointer not null.
  unfoldable pub refresh_node : MgrNode → S → MgrNode × S
  refresh_node n s =
      if not (is_running n.state) || n.pid == 0
      then (n, s)
      else let (status, s') = os.waitpid n.pid s in
        (elim status [ none ↦ n | some st ↦ ended node_exited st n ], s')

  -- `refresh_nodes`
  unfoldable pub refresh_nodes : List MgrNode → S → List MgrNode × S
  refresh_nodes [] s = ([], s)
  refresh_nodes (n ∷ ns) s =
      let (n', s') = refresh_node n s in let (ns', s'') = refresh_nodes ns s' in (n' ∷ ns', s'')

  -- `start_node` after the refresh.
  unfoldable pub start_refreshed : MgrNode → S → MgrNode × S × List Note
  start_refreshed n s =
      let (pid, s') = os.fork s in
      if is_running n.state
      then (n, s, already_running n.def.name n.pid ∷ [])
      else if not (os.executable n.def.binary s)
      then (n, s, not_executable n.def.binary ∷ [])
      else if pid == 0
      then (n, s', start_failed n.def.name ∷ [])
      else (
        record n { pid = pid; state = node_running; started_at = os.time s'; exit_status = 0 },
        s',
        started n.def.name pid ∷ [],
      )

  -- The end of `stop_node`, when the wait has run out.
  unfoldable pub force_stop : MgrNode → S → MgrNode × S × List Note
  force_stop n s =
      let (sent, s') = os.kill n.pid sigkill s in
      let (status, s'') = os.wait_for n.pid s' in
      if sent then (ended node_stopped status n, s'', killed n.def.name ∷ []) else (n, s', [])

  -- The wait of `stop_node`, with the rounds left.
  unfoldable pub stop_wait : ℕ → MgrNode → S → MgrNode × S × List Note
  stop_wait zero n s = force_stop n s
  stop_wait (suc rounds) n s =
      let (status, s') = os.waitpid n.pid s in
      let rest = stop_wait rounds n (os.usleep s') in
      elim status [ some st ↦ (ended node_stopped st n, s', stopped n.def.name ∷ []) | none ↦ rest ]

  -- `stop_node` after the refresh.
  unfoldable pub stop_refreshed : MgrNode → S → MgrNode × S × List Note
  stop_refreshed n s =
      let (sent, s') = os.kill n.pid sigterm s in
      if not (is_running n.state) || n.pid == 0
      then (n, s, not_running n.def.name ∷ [])
      else if not sent
      then (n, s', stop_failed n.def.name ∷ [])
      else stop_wait 30 n s'

  -- The frame of `start_node` and `stop_node`: the node of a name is found, refreshed and handed on.
  unfoldable pub on_node : (MgrNode → S → MgrNode × S × List Note) → CString → Mgr S → Mgr S
  unfolding find_node
  on_node act name m = elim (find_node m.nodes name) [
    | none ↦ record m { printed = m.printed ++ unknown_node name ∷ [] }
    | some i ↦
        let (n, s) = refresh_node (node_at m.nodes i) m.sys in
        let (n', s', notes) = act n s in
        record m { nodes = set m.nodes i n'; sys = s'; printed = m.printed ++ notes }
  ]

  -- `start_node`
  unfoldable pub start_node : CString → Mgr S → Mgr S
  unfolding on_node
  start_node = on_node start_refreshed

  -- `stop_node`
  unfoldable pub stop_node : CString → Mgr S → Mgr S
  unfolding on_node
  stop_node = on_node stop_refreshed

  -- `restart_node`
  unfoldable pub restart_node : CString → Mgr S → Mgr S
  unfolding find_node
  restart_node name m = elim (find_node m.nodes name) [
    | none ↦ record m { printed = m.printed ++ unknown_node name ∷ [] }
    | some i ↦
        start_node name (if is_running (node_at m.nodes i).state then stop_node name m else m)
  ]
