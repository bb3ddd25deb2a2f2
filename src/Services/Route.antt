-- ===== src/Services/Route.antt =====
-- src/core/nos_scheduler.c, the way of a message: `nos_service_msg_send`, `nos_service_reply`,
-- `process_thread_messages` and `start_pending_components`. A component's callbacks are its own
-- code, and parameters; so are the two entries of the IPC layer, modelled in Ipc. `header` is what
-- stands at a buffer's data. The loop over the queue takes fuel.
pub mod Deliver
use codex_nos.Base.{
  ℕ, zero, suc, Bool, true, false, not, Option, none, some, List, [], ◌∷◌, ◌&&◌, Status, ok, err,
  get_or, get_elem?, set, find_index, length, ◌==◌, if◌then◌else◌, CString,
}
use codex_nos.Buffer.{BufPtr, Pool, release}
use codex_nos.Reply.{ReplyCtx}
use codex_nos.Sched.{Thread}
use codex_nos.Sched.Queue.{local_send, dequeue}
use codex_nos.Services.{Registry, find_service_entry}

-- `nos_comp_status_t`
pub data CompStatus : Type 0 where
  st_loaded st_inited st_active st_stopped st_error : CompStatus

-- `nos_component_t`, of which `init`, `start`, `stop` and `on_msg` say whether the callback is set.
pub record Component : Type 0 where
  pub id : ℕ
  pub name : CString
  pub status : CompStatus
  pub init : Bool
  pub start : Bool
  pub stop : Bool
  pub on_msg : Bool

abbrev pub null_component : Component
null_component = record {
  id = 0;
  name = [];
  status = st_loaded;
  init = false;
  start = false;
  stop = false;
  on_msg = false;
}

-- `loaded_comp_info_t`
pub record LoadedComp : Type 0 where
  pub comp : Option ℕ
  pub handle : ℕ
  pub lib_name : CString
  pub owner_thread : Option ℕ

abbrev pub null_loaded : LoadedComp
null_loaded = record { comp = none; handle = 0; lib_name = []; owner_thread = none }

-- `nos_service_msg_t`, with the flags that the code reads.
pub record ServiceMsg : Type 0 where
  pub magic : ℕ
  pub dst_service : ℕ
  pub src_component : ℕ
  pub dst_component : ℕ
  pub msg_code : ℕ
  pub seq : ℕ
  pub reply : Bool
  pub ipc_ctrl : Bool
  pub payload_len : ℕ

-- What the message paths share: `g_node_ctx`, `g_service_registry`, the buffers and the objects
-- that pointers name.
pub record World : Type 0 where
  pub pool : Pool
  pub threads : List Thread
  pub registry : Registry
  pub loaded_info : List LoadedComp
  pub components : List Component
  pub header : BufPtr → ServiceMsg

abbrev pub component_at : World → ℕ → Component
component_at w c = get_or w.components c null_component

abbrev pub loaded_at : World → ℕ → LoadedComp
loaded_at w i = get_or w.loaded_info i null_loaded

-- `find_loaded_component_info`
unfoldable pub find_loaded : World → ℕ → Option LoadedComp
find_loaded w comp_id =
    elim (find_index
      (λ i. elim ((loaded_at w i).comp) [
        | none ↦ false
        | some c ↦ (component_at w c).id == comp_id
      ])
      (length w.loaded_info)) [ none ↦ none | some i ↦ some (loaded_at w i) ]

-- `nos_transport_local_send`, a null thread included.
unfoldable pub transport_local : World → BufPtr → Option ℕ → Status × World
transport_local w buf none = (err, w)
transport_local w buf (some t) = elim (get_elem? w.threads t) [
  | none ↦ (err, w)
  | some th ↦
      let (st, p, th') = local_send w.pool buf th in
      (st, record w { pool = p; threads = set w.threads t th' })
]

abbrev is_reply : ServiceMsg → Bool
is_reply m = m.reply && not (m.dst_component == 0)

-- `nos_service_msg_send`, its buffer not null.
unfoldable pub msg_send :
    (CString → CString → BufPtr → World → Status × World) → BufPtr → World → Status × World
unfolding find_loaded transport_local
msg_send ipc_send buf w =
    let m = w.header buf in
    if is_reply m
    then elim (find_loaded w m.dst_component) [
      | none ↦ (err, w)
      | some info ↦ transport_local w buf info.owner_thread
    ]
    else elim (find_service_entry w.registry m.dst_service) [
      | none ↦ (err, w)
      | some e ↦
          if e.is_remote
          then ipc_send e.remote_node e.remote_uds_path buf w
          else transport_local w buf e.local_thread
    ]

-- The header that `nos_service_reply` writes.
abbrev pub reply_header : ReplyCtx → ServiceMsg → ServiceMsg
reply_header ctx m = record m {
  reply = true;
  seq = ctx.corr_id;
  dst_component = ctx.requester_component;
}

abbrev pub same_buf : BufPtr → BufPtr → Bool
same_buf a b = a.0 == b.0 && a.1 == b.1

-- `nos_service_reply`, its pointers not null.
unfoldable pub service_reply :
    (Option ℕ → ℕ → BufPtr → World → Status × World) → ReplyCtx → BufPtr → World → Status × World
service_reply send_reply ctx buf w = send_reply ctx.ipc_conn ctx.ipc_generation buf (record w {
  header = λ b. if same_buf b buf then reply_header ctx (w.header b) else w.header b;
})

abbrev pub is_active : CompStatus → Bool
is_active st_active = true
is_active _ = false

-- A component that takes messages, if it is active and has a callback.
abbrev ready : World → Option ℕ → Option ℕ
ready w none = none
ready w (some c) =
    if is_active (component_at w c).status && (component_at w c).on_msg then some c else none

-- The component that a message taken from a queue goes to.
unfoldable pub receiver : World → ServiceMsg → Option ℕ
unfolding find_loaded
receiver w m =
    if is_reply m
    then elim (find_loaded w m.dst_component) [ none ↦ none | some info ↦ ready w info.comp ]
    else elim (find_service_entry w.registry m.dst_service) [
      | none ↦ none
      | some e ↦ ready w e.local_provider
    ]

module _ (on_msg : ℕ → BufPtr → World → World) where
  -- The delivery of a message that has been taken, and the release of its buffer.
  unfoldable pub deliver : BufPtr → World → World
  unfolding receiver
  deliver buf w =
      let w' : World = elim (receiver w (w.header buf)) [ none ↦ w | some c ↦ on_msg c buf w ] in
      record w' { pool = release buf w'.pool }

  -- `process_thread_messages`, on thread `t`.
  unfoldable pub process_thread_messages : ℕ → ℕ → World → World
  unfolding deliver
  process_thread_messages zero t w = w
  process_thread_messages (suc fuel) t w = elim (get_elem? w.threads t) [
    | none ↦ w
    | some th ↦
        let (taken, th') = dequeue th in
        elim taken [
          | none ↦ w
          | some buf ↦
              process_thread_messages fuel t
                (deliver buf (record w { threads = set w.threads t th' }))
        ]
  ]

abbrev pub is_inited : CompStatus → Bool
is_inited st_inited = true
is_inited _ = false

abbrev pub is_ok : Status → Bool
is_ok ok = true
is_ok _ = false

-- `start_pending_components`, over the components of a thread; `start` is the result of a
-- component's callback.
unfoldable pub start_pending : (ℕ → Status) → List ℕ → List Component → List Component
start_pending start [] comps = comps
start_pending start (c ∷ cs) comps =
    let comp = get_or comps c null_component in
    let status =
      if not comp.start then st_active else if is_ok (start c) then st_active else st_error in
    let next =
      if is_inited comp.status then set comps c (record comp { status = status }) else comps in
    start_pending start cs next
