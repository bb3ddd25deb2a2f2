-- ===== src/Nodes.antt =====
-- src/core/nos_node_mgr.c, the components of a node: loading them from libraries, unloading and
-- reloading them, and the routes of the services. The state is the `World` of the message paths,
-- with the timers and what is done to libraries and components, in order. A thread pointer is an
-- index into the threads, of which the management thread is the first. Libraries, and the callbacks
-- in them, are parameters; a callback of a component is recorded, and changes nothing here.
pub mod Staging
pub mod Changes
pub mod Setup
pub mod Intact
pub mod Reload
pub mod Unload
pub mod Swap
pub mod Replace
pub mod Shutdown
mod Tests
use codex_nos.Base.{
  ℕ, ◌+◌, Bool, true, false, not, Option, none, some, List, [], ◌∷◌, ◌++◌, ◌&&◌, ◌||◌, Status, err,
  get_or, get_elem?, set, find_index, length, ◌==◌, if◌then◌else◌, CString, str_eq,
}
use codex_nos.Buffer.{BufPtr, Pool}
use codex_nos.Sched.{Thread, register_component, unregister_component}
use codex_nos.Sched.Queue.{drop_messages}
use codex_nos.Sched.Timers.{Timer, cancel_timers_by_owner}
use codex_nos.Services.{Registry, ServiceEntry, find_service_entry}
use codex_nos.Services.Route.{
  CompStatus, st_stopped, Component, null_component, component_at, LoadedComp, World, loaded_at,
}

-- `nos_service_def_t`, of a manifest.
pub record ServiceDef : Type 0 where
  pub service_id : ℕ
  pub provider_comp_id : ℕ
  pub node_name : CString
  pub remote_uds_path : Option CString

-- The parts of `nos_node_def_t` that the node manager reads.
pub record NodeDef : Type 0 where
  pub name : CString
  pub services : List ServiceDef

-- What is done to a component or a library: the call of `stop`, `free` and `dlclose`.
pub data Effect : Type 0 where
  stopped : ℕ → Effect
  freed : ℕ → Effect
  closed : ℕ → Effect

pub record Node : Type 0 where
  pub world : World
  pub timers : List Timer
  pub effects : List Effect

abbrev pub comp_at : Node → ℕ → Component
comp_at n c = component_at n.world c

abbrev pub record_effect : Effect → Node → Node
record_effect e n = record n { effects = n.effects ++ e ∷ [] }

abbrev pub put_comp : ℕ → Component → Node → Node
put_comp c v n = record n { world = record n.world { components = set n.world.components c v } }

abbrev pub is_stopped : CompStatus → Bool
is_stopped st_stopped = true
is_stopped _ = false

-- `status = NOS_COMP_ST_STOPPED;`
abbrev pub mark_stopped : ℕ → Node → Node
mark_stopped c n = put_comp c (record (comp_at n c) { status = st_stopped }) n

-- Whether `stop` is to be called: the component has one and was not stopped before.
abbrev pub wants_stop : Component → Bool
wants_stop v = not (is_stopped v.status) && v.stop

abbrev pub call_stop : Bool → ℕ → Node → Node
call_stop wanted c n = if wanted then record_effect (stopped c) n else n

-- `nos_scheduler_register_component`, a null thread included.
unfoldable pub register_on : Option ℕ → ℕ → Node → Status × Node
register_on none c n = (err, n)
register_on (some t) c n = elim (get_elem? n.world.threads t) [
  | none ↦ (err, n)
  | some th ↦
      let (st, th') = register_component th c in
      (st, record n { world = record n.world { threads = set n.world.threads t th' } })
]

-- `nos_scheduler_unregister_component`, a null thread included.
unfoldable pub unregister_on : Option ℕ → ℕ → Node → Status × Node
unregister_on none c n = (err, n)
unregister_on (some t) c n = elim (get_elem? n.world.threads t) [
  | none ↦ (err, n)
  | some th ↦
      let (st, th') = unregister_component th c in
      (st, record n { world = record n.world { threads = set n.world.threads t th' } })
]

-- A service of the manifest that component `id` provides on this node.
abbrev pub provides : NodeDef → ℕ → ServiceDef → Bool
provides def id svc = svc.provider_comp_id == id && str_eq svc.node_name def.name

-- The loop over the manifest in `nos_scheduler_drop_messages_for_provider`.
abbrev pub lists_service : NodeDef → ℕ → ℕ → List ServiceDef → Bool
lists_service def id sid [] = false
lists_service def id sid (svc ∷ svcs) =
    (svc.service_id == sid && provides def id svc) || lists_service def id sid svcs

abbrev pub is_provider : ℕ → Option ℕ → Bool
is_provider c none = false
is_provider c (some d) = d == c

abbrev pub local_entry : ℕ → Option ServiceEntry → Bool
local_entry c none = false
local_entry c (some e) = not e.is_remote && is_provider c e.local_provider

-- The test of `nos_scheduler_drop_messages_for_provider` on a message.
unfoldable pub targets_provider : NodeDef → ℕ → World → BufPtr → Bool
targets_provider def c w buf =
    let sid = (w.header buf).dst_service in
    local_entry c (find_service_entry w.registry sid)
    || lists_service def (component_at w c).id sid def.services

-- The end of a component's work on its thread: its messages are dropped and its timers cancelled.
unfoldable pub detach : NodeDef → Option ℕ → ℕ → Node → Node
unfolding targets_provider
detach def none c n = n
detach def (some t) c n = elim (get_elem? n.world.threads t) [
  | none ↦ n
  | some th ↦
      let (pool, th1) = drop_messages (targets_provider def c n.world) n.world.pool th in
      let (timers, th2) = cancel_timers_by_owner c n.timers th1 in
      record n {
        world = record n.world { pool = pool; threads = set n.world.threads t th2 };
        timers = timers;
      }
]

-- `node_stop_component_instance`, of component `c` on thread `t`.
unfoldable pub stop_component : NodeDef → Option ℕ → ℕ → Node → Node
unfolding detach
stop_component def t c n =
    call_stop (wants_stop (comp_at n c)) c (detach def t c (mark_stopped c n))

-- The `free` of a component and the `dlclose` of its library.
abbrev pub free_component : ℕ → ℕ → Node → Node
free_component c handle n = record_effect (closed handle) (record_effect (freed c) n)

-- `node_destroy_loaded_component`, its component not null.
unfoldable pub destroy_component : ℕ → ℕ → Node → Node
destroy_component c handle n =
    let v = comp_at n c in
    let marked = if is_stopped v.status then n else mark_stopped c n in
    free_component c handle (call_stop (wants_stop v) c marked)

-- `node_get_loaded_comp_by_id`
unfoldable pub loaded_comp_by_id : Node → ℕ → Option ℕ
loaded_comp_by_id n id =
    elim (find_index
      (λ i. elim ((loaded_at n.world i).comp) [ none ↦ false | some c ↦ (comp_at n c).id == id ])
      (length n.world.loaded_info)) [ none ↦ none | some i ↦ (loaded_at n.world i).comp ]

-- The search by name of `node_unload_component` and `node_reload_component`.
unfoldable pub loaded_by_name : Node → CString → Option ℕ
loaded_by_name n name =
    find_index
      (λ i. elim ((loaded_at n.world i).comp) [
        | none ↦ false
        | some c ↦ str_eq (comp_at n c).name name
      ])
      (length n.world.loaded_info)
