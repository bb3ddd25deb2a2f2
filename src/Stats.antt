-- ===== src/Stats.antt =====
-- src/infra/stats/nos_stats.c: the registry of counters and gauges. `g_stats_count` is the length of
-- the list; what a counter's address or a gauge's callback gives is a parameter. A dump is the list
-- of its rows.
pub mod Register
mod Tests
use codex_nos.Base.{
  ℕ, Bool, true, false, ◌&&◌, not, Option, none, some, List, [], ◌∷◌, ◌++◌, Status, ok, err,
  err_busy, length, get_or, find_index, leb, if◌then◌else◌, CString, str_eq, strncpy,
}

-- `nos_stats_type_t`, with the address or the callback and its argument.
pub data Source : Type 0 where
  counter : ℕ → Source
  gauge : ℕ → ℕ → Source

-- `nos_stats_item_t`; `module` is a reserved word.
pub record StatsItem : Type 0 where
  pub module_name : CString
  pub name : CString
  pub source : Source

abbrev pub null_item : StatsItem
null_item = record { module_name = []; name = []; source = counter 0 }

abbrev pub max_items : ℕ
max_items = 128

-- `nos_stats_init`
abbrev pub stats_init : List StatsItem → List StatsItem
stats_init items = []

abbrev pub named : CString → CString → StatsItem → Bool
named m n item = str_eq item.module_name m && str_eq item.name n

-- The item as its arrays hold it.
abbrev pub cut_item : CString → CString → Source → StatsItem
cut_item m n source = record { module_name = strncpy 31 m; name = strncpy 31 n; source = source }

-- `stats_register_item`, its names not null.
unfoldable pub register_item : List StatsItem → CString → CString → Source → Status × List StatsItem
register_item items m n source =
    elim (find_index (λ i. named m n (get_or items i null_item)) (length items)) [
      | some i ↦ (ok, items)
      | none ↦
          if leb max_items (length items)
          then (err_busy, items)
          else (ok, items ++ cut_item m n source ∷ [])
    ]

-- `nos_stats_register_counter`
unfoldable pub register_counter :
    List StatsItem → CString → CString → Option ℕ → Status × List StatsItem
unfolding register_item
register_counter items m n none = (err, items)
register_counter items m n (some value) = register_item items m n (counter value)

-- `nos_stats_register_gauge`
unfoldable pub register_gauge :
    List StatsItem → CString → CString → Option ℕ → ℕ → Status × List StatsItem
unfolding register_item
register_gauge items m n none arg = (err, items)
register_gauge items m n (some read_fn) arg = register_item items m n (gauge read_fn arg)

module _ (load : ℕ → ℕ) (call : ℕ → ℕ → ℕ) where
  -- `stats_read_item`
  abbrev pub read_source : Source → ℕ
  read_source (counter address) = load address
  read_source (gauge read_fn arg) = call read_fn arg

  abbrev shown : Option CString → StatsItem → Bool
  shown none item = true
  shown (some m) item = str_eq item.module_name m

  -- `stats_dump_locked`: the rows of a module, or of all; the result counts them.
  unfoldable pub dump : Option CString → List StatsItem → List (CString × CString × ℕ)
  dump m [] = []
  dump m (item ∷ items) =
      let rest = dump m items in
      if shown m item then (item.module_name, item.name, read_source item.source) ∷ rest else rest

  -- `nos_stats_dump_all` and `nos_stats_dump_module`
  abbrev pub dump_all : List StatsItem → ℕ
  dump_all items = length (dump none items)

  abbrev pub dump_module : CString → List StatsItem → ℕ
  dump_module m items = length (dump (some m) items)
