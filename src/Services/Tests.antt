-- ===== src/Services/Tests.antt =====
-- The properties of the services at a registry of one entry and a thread with one message.
use codex_nos.Base.{
  ℕ, ◌≡◌, refl, true, false, some, [], ◌∷◌, length-replicate, length-set, replicate, set, arith,
  ◌∙◌,
}
use codex_nos.Buffer.{BufPtr}
use codex_nos.Sched.{Thread}
use codex_nos.Sched.Queue.Fifo.{IsQueue, contents}
use codex_nos.Services.{ServiceEntry, Registry, null_entry, bound}
use codex_nos.Services.Lookup.{IsRegistry}
use codex_nos.Services.Route.{World, null_component, st_active, process_thread_messages}
use codex_nos.Services.Route.Deliver.{deliver_all, waiting, process_messages_correct}

abbrev entry7 : ServiceEntry
entry7 = bound 7 (some 0) (some 0) null_entry

-- Service 7, on component 0.
abbrev registry1 : Registry
registry1 = record { entries = set (replicate 64 null_entry) 0 entry7; count = 1 }

registry1-IsRegistry : IsRegistry registry1
registry1-IsRegistry = record {
  size = length-set (replicate 64 null_entry) 0 entry7 ∙ length-replicate 64 null_entry;
  fits = omega arith;
  unique = λ i j p q e. omega arith;
}

abbrev thread0 : Thread
thread0 = record {
  thread_id = 0;
  name = [];
  stop_requested = false;
  is_sleeping = false;
  notified = 0;
  msg_queue = replicate 1024 (0, 3);
  head = 4;
  tail = 6;
  components = [];
  fd_entries = [];
  nodes = [];
  timer_capacity = 128;
}

thread0-IsQueue : IsQueue thread0
thread0-IsQueue = record {
  size = length-replicate {A = BufPtr} 1024 (0, 3);
  head_lt = omega arith;
  tail_lt = omega arith;
}

abbrev world0 : World
world0 = record {
  pool = record { bins = []; ctxs = [] };
  threads = thread0 ∷ [];
  registry = registry1;
  loaded_info = [];
  components =
      record null_component { id = 5; status = st_active; start = true; on_msg = true } ∷ [];
  header = λ b. record {
    magic = 0;
    dst_service = 7;
    src_component = 0;
    dst_component = 0;
    msg_code = 0;
    seq = 0;
    reply = false;
    ipc_ctrl = false;
    payload_len = 0;
  };
}

-- A callback that stops its own component.
abbrev stops : ℕ → BufPtr → World → World
stops c buf w = record w { components = [] }

process_messages_correct_example :
    (process_thread_messages stops 3 0 world0 ≡ deliver_all stops 0 (contents thread0) world0)
    × (waiting stops 0 (process_thread_messages stops 3 0 world0) ≡ [])
process_messages_correct_example =
    process_messages_correct stops 0 (λ c buf w. refl) 3 world0 thread0 refl thread0-IsQueue
      (omega arith)
