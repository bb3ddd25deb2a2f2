-- ===== src/Log.antt =====
-- src/infra/log/nos_log.c: the log ring between any thread and the consumer thread, and the filter
-- levels of components. A call of `nos_log_impl` is one step here, so a slot is empty or ready, and
-- never seen while it is written. The formatted text is a parameter, and the time is left out.
pub mod Sync
pub mod Stall
pub mod Levels
mod Tests
use codex_nos.Base.{
  ℕ, ◌+◌, ◌-◌, ◌%◌, Bool, true, false, not, ◌&&◌, Option, none, some, List, [], ◌∷◌, get_or, set,
  replicate, take, ltb, leb, ◌==◌, if◌then◌else◌, CString, strncpy, add32, add64,
}

-- `nos_log_level_t`
pub data Level : Type 0 where
  debug info warn error : Level

abbrev pub rank : Level → ℕ
rank debug = 0
rank info = 1
rank warn = 2
rank error = 3

-- `level_to_str`
abbrev pub level_to_str : Level → CString
level_to_str debug = 68 ∷ 69 ∷ 66 ∷ 85 ∷ 71 ∷ []
level_to_str info = 73 ∷ 78 ∷ 70 ∷ 79 ∷ 32 ∷ []
level_to_str warn = 87 ∷ 65 ∷ 82 ∷ 78 ∷ 32 ∷ []
level_to_str error = 69 ∷ 82 ∷ 82 ∷ 79 ∷ 82 ∷ []

-- `nos_log_entry_t`: `ready` is 0 for an empty slot, 1 for one that is written, 2 for a full one.
pub record LogEntry : Type 0 where
  pub level : Level
  pub comp_id : ℕ
  pub message : CString
  pub ready : ℕ

abbrev pub null_entry : LogEntry
null_entry = record { level = debug; comp_id = 0; message = []; ready = 0 }

-- `nos_comp_info_t`
pub record CompInfo : Type 0 where
  pub name : CString
  pub filter_level : Level
  pub is_registered : Bool

abbrev pub null_info : CompInfo
null_info = record { name = []; filter_level = debug; is_registered = false }

-- `nos_log_context_t`
pub record LogCtx : Type 0 where
  pub ring : List LogEntry
  pub write_idx : ℕ
  pub read_idx : ℕ
  pub global_filter_level : Level
  pub comp_info : List CompInfo
  pub dropped_count : ℕ
  pub keep_running : Bool
  pub initialized : Bool

abbrev pub log_buffer_size : ℕ
log_buffer_size = 1024

abbrev pub max_comp_id : ℕ
max_comp_id = 256

-- `g_log_ctx`
abbrev pub g_log_ctx : LogCtx
g_log_ctx = record {
  ring = replicate log_buffer_size null_entry;
  write_idx = 0;
  read_idx = 0;
  global_filter_level = debug;
  comp_info = replicate max_comp_id null_info;
  dropped_count = 0;
  keep_running = true;
  initialized = false;
}

abbrev pub info_at : LogCtx → ℕ → CompInfo
info_at s c = get_or s.comp_info c null_info

abbrev pub in_range : ℕ → Bool
in_range c = ltb 0 c && ltb c max_comp_id

-- The level that `nos_log_impl` filters by.
unfoldable pub filter_of : LogCtx → ℕ → Level
filter_of s c =
    if in_range c && (info_at s c).is_registered
    then (info_at s c).filter_level
    else s.global_filter_level

abbrev pub slot_of : LogCtx → ℕ → LogEntry
slot_of s idx = get_or s.ring (idx % log_buffer_size) null_entry

-- The part of `nos_log_impl` after the filter: a slot is claimed, and written if it is empty.
unfoldable pub log_write : Level → ℕ → CString → LogCtx → LogCtx
log_write level c text s =
    let moved = record s { write_idx = add32 s.write_idx 1 } in
    if (slot_of s s.write_idx).ready == 0
    then record moved {
      ring =
          set s.ring (s.write_idx % log_buffer_size)
            (record { level = level; comp_id = c; message = take 255 text; ready = 2 });
    }
    else record moved { dropped_count = add64 s.dropped_count 1 }

-- `nos_log_impl`
unfoldable pub log_impl : Level → ℕ → CString → LogCtx → LogCtx
unfolding filter_of log_write
log_impl level c text s =
    if ltb (rank level) (rank (filter_of s c)) then s else log_write level c text s

abbrev system : CString
system = 83 ∷ 121 ∷ 115 ∷ 116 ∷ 101 ∷ 109 ∷ []

-- The line that is printed: level, component name and message.
abbrev pub line_of : LogCtx → LogEntry → CString × CString × CString
line_of s e = (
  level_to_str e.level,
  if in_range e.comp_id && (info_at s e.comp_id).is_registered
      then (info_at s e.comp_id).name
      else system,
  e.message,
)

-- A round of `nos_log_consumer_thread`: the line printed, if the slot at `read_idx` is ready.
unfoldable pub consume : LogCtx → Option (CString × CString × CString) × LogCtx
consume s =
    let e = slot_of s s.read_idx in
    if e.ready == 2
    then (
      some (line_of s e),
      record s {
        ring = set s.ring (s.read_idx % log_buffer_size) (record e { ready = 0 });
        read_idx = add32 s.read_idx 1;
      },
    )
    else (none, s)

-- `nos_set_level_impl`; `text` is the message about it.
unfoldable pub set_level : Level → CString → LogCtx → LogCtx
unfolding log_impl
set_level level text s = log_impl info 0 text (record s { global_filter_level = level })

-- `nos_set_comp_level_impl`
unfoldable pub set_comp_level : ℕ → Level → CString → LogCtx → LogCtx
unfolding log_impl
set_comp_level c level text s =
    let next = record s {
      comp_info = set s.comp_info c (record (info_at s c) { filter_level = level });
    } in
    if in_range c then log_impl info 0 text next else s

-- `nos_log_set_comp_info`, its name not null.
unfoldable pub set_comp_info : ℕ → CString → LogCtx → LogCtx
set_comp_info c name s =
    if in_range c
    then record s {
      comp_info = set s.comp_info c (record {
        name = strncpy 31 name;
        filter_level = s.global_filter_level;
        is_registered = true;
      });
    }
    else s

abbrev emptied : List LogEntry → List LogEntry
emptied [] = []
emptied (e ∷ es) = record e { ready = 0 } ∷ emptied es

-- `nos_log_init`, the start of the consumer and the registration of the service apart.
unfoldable pub log_init : LogCtx → LogCtx
log_init s =
    if s.initialized
    then s
    else record s { ring = emptied s.ring; keep_running = true; initialized = true }

-- `nos_log_deinit`, after the consumer has ended.
unfoldable pub log_deinit : LogCtx → LogCtx
log_deinit s = if s.initialized then record s { keep_running = false; initialized = false } else s
