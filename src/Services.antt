-- ===== src/Services.antt =====
-- src/core/nos_scheduler.c, the service registry: which component on which thread, or which node,
-- serves a service id. `g_service_registry` keeps its 64 entries, those past `g_service_count`
-- included, as a new entry is made from what the slot held. src/core/nos_service.c, the registry of
-- embedded services, is Services/Embedded, and the delivery of messages Services/Route.
pub mod Lookup
pub mod Changes
pub mod Embedded
pub mod Route
mod Tests
use codex_nos.Base.{
  ℕ, zero, suc, ◌+◌, ◌-◌, Bool, true, false, Option, none, some, List, Status, ok, err, get_or, set,
  find_index, replicate, leb, ◌==◌, if◌then◌else◌, CString, strncpy, [],
}

-- `service_entry_t`
pub record ServiceEntry : Type 0 where
  pub service_id : ℕ
  pub local_provider : Option ℕ
  pub local_thread : Option ℕ
  pub remote_node : CString
  pub remote_uds_path : CString
  pub is_remote : Bool

abbrev pub null_entry : ServiceEntry
null_entry = record {
  service_id = 0;
  local_provider = none;
  local_thread = none;
  remote_node = [];
  remote_uds_path = [];
  is_remote = false;
}

-- `g_service_registry` and `g_service_count`
pub record Registry : Type 0 where
  pub entries : List ServiceEntry
  pub count : ℕ

abbrev pub max_services : ℕ
max_services = 64

abbrev pub empty_registry : Registry
empty_registry = record { entries = replicate max_services null_entry; count = 0 }

abbrev pub entry_at : Registry → ℕ → ServiceEntry
entry_at r i = get_or r.entries i null_entry

-- The index that `find_service_entry` stops at.
unfoldable pub find_service : Registry → ℕ → Option ℕ
find_service r id = find_index (λ i. (entry_at r i).service_id == id) r.count

-- `find_service_entry`
unfoldable pub find_service_entry : Registry → ℕ → Option ServiceEntry
unfolding find_service
find_service_entry r id = elim (find_service r id) [ none ↦ none | some i ↦ some (entry_at r i) ]

-- The entry that a registration writes to, from `find_service_entry` or at the end.
unfoldable pub register : Registry → ℕ → (ServiceEntry → ServiceEntry) → Status × Registry
unfolding find_service
register r id f = elim (find_service r id) [
  | none ↦ if leb max_services r.count then (err, r) else (
    ok,
    record { entries = set r.entries r.count (f (entry_at r r.count)); count = r.count + 1 },
  )
  | some i ↦ (ok, record r { entries = set r.entries i (f (entry_at r i)) })
]

abbrev pub bound : ℕ → Option ℕ → Option ℕ → ServiceEntry → ServiceEntry
bound id provider thread e = record e {
  service_id = id;
  local_provider = provider;
  local_thread = thread;
  is_remote = false;
}

-- `nos_service_register_provider_bind`
unfoldable pub register_provider_bind : Registry → ℕ → Option ℕ → Option ℕ → Status × Registry
unfolding register
register_provider_bind r id provider thread = register r id (bound id provider thread)

abbrev pub routed : ℕ → Option CString → CString → ServiceEntry → ServiceEntry
routed id node path e = record e {
  service_id = id;
  is_remote = true;
  remote_node = elim node [ none ↦ e.remote_node | some n ↦ strncpy 31 n ];
  remote_uds_path = strncpy 107 path;
}

-- `nos_service_register_remote`
unfoldable pub register_remote : Registry → ℕ → Option CString → CString → Status × Registry
unfolding register
register_remote r id node path = register r id (routed id node path)

-- `nos_service_unregister_provider`
unfoldable pub unregister_provider : Registry → ℕ → Status × Registry
unfolding find_service
unregister_provider r id = elim (find_service r id) [
  | none ↦ (err, r)
  | some i ↦
      (ok, record { entries = set r.entries i (entry_at r (r.count - 1)); count = r.count - 1 })
]
