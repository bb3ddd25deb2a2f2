-- ===== src/Nodes/Tests.antt =====
-- A node with one component, whose library is loaded anew or gone.
use codex_nos.Base.{
  ◌≤◌, ℕ, zero, suc, ◌≡◌, refl, true, false, none, some, [], ◌∷◌, ok, err, replicate, set,
  length-replicate, length-set, ◌∙◌, codes, arith,
}
use codex_nos.Sched.{Thread, register_component, unregister_component}
use codex_nos.Services.{ServiceEntry, Registry, null_entry, bound}
use codex_nos.Services.Lookup.{IsRegistry}
use codex_nos.Services.Route.{null_component, st_active}
use codex_nos.Nodes.Replace.{Replaced, reload_correct}
use codex_nos.Nodes.{register_on, unregister_on, NodeDef, Node, loaded_by_name}
use codex_nos.Nodes.Staging.{Platform, load_staged}
use codex_nos.Nodes.Changes.{unload, reload}
use codex_nos.Nodes.Intact.{Intact, FewComponents}
use codex_nos.Nodes.Reload.{reload_error}
use codex_nos.Nodes.Unload.{Unloaded, unload_correct}

abbrev entry7 : ServiceEntry
entry7 = bound 7 (some 0) (some 0) null_entry

abbrev registry1 : Registry
registry1 = record { entries = set (replicate 64 null_entry) 0 entry7; count = 1 }

registry1-IsRegistry : IsRegistry registry1
registry1-IsRegistry = record {
  size = length-set (replicate 64 null_entry) 0 entry7 ∙ length-replicate 64 null_entry;
  fits = omega arith;
  unique = λ i j p q e. omega arith;
}

abbrev worker : Thread
worker = record {
  thread_id = 0;
  name = codes "w";
  stop_requested = false;
  is_sleeping = false;
  notified = 0;
  msg_queue = replicate 1024 (0, 3);
  head = 4;
  tail = 4;
  components = 0 ∷ [];
  fd_entries = [];
  nodes = [];
  timer_capacity = 128;
}

abbrev node1 : Node
node1 = record {
  world = record {
    pool = record { bins = []; ctxs = [] };
    threads = worker ∷ [];
    registry = registry1;
    loaded_info =
        record { comp = some 0; handle = 3; lib_name = codes "a.so"; owner_thread = some 0 } ∷ [];
    components =
        record null_component { id = 5; name = codes "a"; status = st_active; stop = true } ∷ [];
    header = λ b. record {
      magic = 0;
      dst_service = 7;
      src_component = 0;
      dst_component = 0;
      msg_code = 0;
      seq = 0;
      reply = false;
      ipc_ctrl = false;
      payload_len = 0;
    };
  };
  timers = [];
  effects = [];
}

abbrev manifest : NodeDef
manifest = record {
  name = codes "n";
  services =
      record { service_id = 7; provider_comp_id = 5; node_name = codes "n"; remote_uds_path = none }
      ∷ [];
}

-- A library whose `init` fails.
abbrev bad_library : Platform
bad_library = record {
  readable = λ path. true;
  dlopen = λ path. some 4;
  exports = λ h. some (λ v. (ok, record v { init = true; stop = true }));
  init = λ v. err;
}

node1-FewComponents : FewComponents node1
node1-FewComponents zero th e = ground arith
node1-FewComponents (suc t) th e = absurd (cc)

reload_fails : (reload manifest bad_library (codes "a") node1).0 ≡ err
unfolding reload loaded_by_name load_staged
reload_fails = refl

reload_error_example : Intact node1 (reload manifest bad_library (codes "a") node1).1
reload_error_example =
    reload_error manifest bad_library (codes "a") node1 node1-FewComponents reload_fails

node1_find : loaded_by_name node1 (codes "a") ≡ some 0
unfolding loaded_by_name
node1_find = refl

unload_correct_example :
    ((unload manifest (codes "a") node1).0 ≡ ok)
    × Unloaded manifest 0 0 node1 (unload manifest (codes "a") node1).1
unload_correct_example =
    unload_correct manifest (codes "a") node1 0 0 node1_find refl (omega arith) registry1-IsRegistry

-- A library that loads.
abbrev good_library : Platform
good_library = record {
  readable = λ path. true;
  dlopen = λ path. some 4;
  exports = λ h. some (λ v. (ok, record v { start = true; on_msg = true }));
  init = λ v. ok;
}

reloads : (reload manifest good_library (codes "a") node1).0 ≡ ok
unfolding reload loaded_by_name load_staged unregister_on register_on unregister_component
    register_component
reloads = refl

reload_correct_example :
    (d : ℕ) × (handle : ℕ) × (1 ≤ d)
    × Replaced manifest 0 0 d handle node1 (reload manifest good_library (codes "a") node1).1
reload_correct_example =
    reload_correct manifest good_library (codes "a") node1 0 0 node1_find refl (omega arith)
      registry1-IsRegistry reloads
