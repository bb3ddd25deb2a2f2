-- ===== src/Nodes/Setup.antt =====
-- src/core/nos_node_mgr.c: `node_init_workers` and `node_setup_routing`.
use codex_nos.Base.{
  codes, ℕ, ◌+◌, Bool, false, not, Option, none, some, List, [], ◌∷◌, ◌++◌, get_elem?, find_index,
  length, leb, take, ◌==◌, if◌then◌else◌, CString, str_eq,
}
use codex_nos.Sched.{Thread, init_thread}
use codex_nos.Services.{Registry, register_provider_bind, register_remote}
use codex_nos.Services.Route.{LoadedComp, is_ok}
use codex_nos.Nodes.{
  ServiceDef, NodeDef, Node, comp_at, register_on, destroy_component, loaded_comp_by_id,
}
use codex_nos.Nodes.Changes.{set_loaded, set_registry}
use codex_nos.Nodes.Staging.{Platform, load_staged}

abbrev pub max_workers : ℕ
max_workers = 8

abbrev pub max_components : ℕ
max_components = 64

-- A component of `nos_thread_def_t`.
pub record CompDef : Type 0 where
  pub comp_id : ℕ
  pub comp_name : CString
  pub comp_model : CString

pub record ThreadDef : Type 0 where
  pub name : CString
  pub comps : List CompDef

-- A thread before its initialisation.
abbrev pub zero_thread : Thread
zero_thread = record {
  thread_id = 0;
  name = [];
  stop_requested = false;
  is_sleeping = false;
  notified = 0;
  msg_queue = [];
  head = 0;
  tail = 0;
  components = [];
  fd_entries = [];
  nodes = [];
  timer_capacity = 0;
}

-- `node_init_mgmt`, with the set-up of the IPC layer as an argument.
unfoldable pub init_mgmt : (Node → Node) → Bool → Node → Node
init_mgmt ipc_init notify_ok n =
    let th = (init_thread notify_ok zero_thread 999 (codes "Mgmt-Master")).1 in
    ipc_init (record n { world = record n.world { threads = th ∷ [] } })

module _ (platform : Platform) where
  -- A component of a worker, on thread `t`.
  unfoldable pub init_comp : ℕ → CompDef → Node → Node
  init_comp t d n =
      let (staged, n1) = load_staged platform d.comp_id d.comp_name d.comp_model n in
      elim staged [
        | none ↦ n1
        | some (c, handle) ↦
            let (st, n2) = register_on (some t) c n1 in
            let info : LoadedComp = record {
              comp = some c;
              handle = handle;
              lib_name = d.comp_model;
              owner_thread = some t;
            } in
            if leb max_components (length n1.world.loaded_info)
            then destroy_component c handle n1
            else if not (is_ok st)
            then destroy_component c handle n2
            else set_loaded (n2.world.loaded_info ++ info ∷ []) n2
      ]

  unfoldable pub init_comps : ℕ → List CompDef → Node → Node
  unfolding init_comp
  init_comps t [] n = n
  init_comps t (d ∷ ds) n = init_comps t ds (init_comp t d n)

  -- The workers from number `i` on; `notify_ok` says whether `eventfd` succeeds.
  unfoldable pub init_threads : (ℕ → Bool) → ℕ → List ThreadDef → Node → Node
  unfolding init_comps
  init_threads notify_ok i [] n = n
  init_threads notify_ok i (d ∷ ds) n =
      let t = length n.world.threads in
      let th = (init_thread (notify_ok i) zero_thread i d.name).1 in
      let n' = record n { world = record n.world { threads = n.world.threads ++ th ∷ [] } } in
      init_threads notify_ok (i + 1) ds (init_comps t (take max_components d.comps) n')

  -- `node_init_workers`
  unfoldable pub init_workers : (ℕ → Bool) → List ThreadDef → Node → Node
  unfolding init_threads
  init_workers notify_ok defs n = init_threads notify_ok 0 (take max_workers defs) n

-- The first worker with a component of the id; the workers are the threads from `i` on.
unfoldable pub owner_worker : Node → ℕ → ℕ → List Thread → Option ℕ
owner_worker n id i [] = none
owner_worker n id i (th ∷ ths) =
    let rest = owner_worker n id (i + 1) ths in
    elim (find_index
      (λ j. elim (get_elem? th.components j) [ none ↦ false | some c ↦ (comp_at n c).id == id ])
      (length th.components)) [ none ↦ rest | some j ↦ some i ]

abbrev pub workers : List Thread → List Thread
workers [] = []
workers (mgmt ∷ ths) = ths

-- The route of a service that this node provides.
abbrev pub route_local : Node → ServiceDef → Registry → Registry
route_local n svc r = elim (loaded_comp_by_id n svc.provider_comp_id) [
  | none ↦ r
  | some c ↦ elim (owner_worker n svc.provider_comp_id 1 (workers n.world.threads)) [
    | none ↦ r
    | some t ↦ (register_provider_bind r svc.service_id (some c) (some t)).1
  ]
]

-- The route of a service of another node, if it has a path.
abbrev pub route_remote : ServiceDef → Registry → Registry
route_remote svc r = elim (svc.remote_uds_path) [
  | none ↦ r
  | some path ↦ elim path [
    | [] ↦ r
    | b ∷ bs ↦ (register_remote r svc.service_id (some svc.node_name) (b ∷ bs)).1
  ]
]

-- The loop of `node_setup_routing`.
unfoldable pub route_services : CString → Node → List ServiceDef → Registry → Registry
unfolding owner_worker
route_services name n [] r = r
route_services name n (svc ∷ svcs) r =
    route_services name n svcs
      (if str_eq svc.node_name name then route_local n svc r else route_remote svc r)

-- `node_setup_routing`
unfoldable pub setup_routing : NodeDef → CString → Node → Node
unfolding route_services
setup_routing def name n = set_registry (route_services name n def.services n.world.registry) n

-- The set-up of `main` in src/core/nos_node_main.c: the management thread, the workers with their
-- components, and the routes.
unfoldable pub start_node :
    Platform → (Node → Node) → Bool → (ℕ → Bool) → NodeDef → List ThreadDef → Node → Node
unfolding init_mgmt init_workers setup_routing
start_node platform ipc_init mgmt_ok notify_ok def defs n =
    setup_routing def def.name (init_workers platform notify_ok defs (init_mgmt ipc_init mgmt_ok n))
