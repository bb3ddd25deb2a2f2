-- ===== src/Kv/Table/Laws.antt =====
-- The operations against the abstract table: `nos_kv_put`, `nos_kv_del`, and the subscriptions.
use codex_nos.Base.{
  ℕ, ◌-◌, ◌≡◌, refl, Bool, true, false, ◌&&◌, Option, none, some, List, [], length, get_or, str_eq,
  eq_of_str_eq, ◌==◌, ltb, if◌then◌else◌, Bool-cases, inl, inr, Status, ok, err, err_busy,
}
use codex_nos.Kv.Table.{Entry, Sub, Table, entry_at, bucket_of, find_entry, write_val}
use codex_nos.Kv.Table.Valid.{Valid, Row, row_of, view}
use codex_nos.Kv.Table.Erase

abbrev pub bound : Option Row → Bool
bound none = false
bound (some r) = true

abbrev pub subs_of : Option Row → List Sub
subs_of none = []
subs_of (some r) = r.subs

pub view-none : (t : Table) (key : List ℕ) → find_entry t key ≡ none → view t key ≡ none
unfolding view
view-none t key e = rw e refl

pub view-some :
    (t : Table) (key : List ℕ) (prev i : ℕ)
    → find_entry t key ≡ some (prev, i)
    → view t key ≡ some (row_of (entry_at t.pool i))
unfolding view
view-some t key prev i e = rw e refl

-- What the specification says of a put of the bytes `v`: the status, and the row that is bound.
abbrev pub put_status : Table → List ℕ → ℕ → Status
put_status t key n =
    if ltb t.max_val_size n
    then err
    else if bound (view t key)
    then ok
    else if t.free_len == 0
    then err_busy
    else ok

abbrev pub succeeds : Status → Bool
succeeds ok = true
succeeds _ = false

abbrev pub put_row : Table → List ℕ → List ℕ → Row
put_row t key v = record { val_len = length v; bytes = v; subs = subs_of (view t key) }

-- A result of `nos_kv_put` that is as the specification says.
pub record PutSpec (t : Table) (key v : List ℕ) (r : Status × List Sub × Table) : Type 0 where
  pub valid : Valid r.2
  pub status : r.0 ≡ put_status t key (length v)
  pub notified : r.1 ≡ (if succeeds r.0 then subs_of (view t key) else [])
  pub bindings :
      (k' : List ℕ)
      → view r.2 k' ≡ (if succeeds r.0 && str_eq key k' then some (put_row t key v) else view t k')

abbrev updated_entry : Table → ℕ → List ℕ → Entry
updated_entry t i v = record (entry_at t.pool i) {
  val = write_val (some v) (length v) (entry_at t.pool i).val;
  val_len = length v;
}

abbrev fresh_entry : Table → List ℕ → List ℕ → Entry
fresh_entry t key v = record {
  next_idx = get_or t.buckets (bucket_of t key) 0;
  val_len = length v;
  sub_list = [];
  key = key;
  val =
      write_val (some v) (length v) (entry_at t.pool (get_or t.free_stack (t.free_len - 1) 0)).val;
}

-- What a change of a key's row alone means for the whole table.
abbrev pub Binds : Table → List ℕ → Option Row → Table → Type 0
Binds t key r t' =
    Valid t' × ((k' : List ℕ) → view t' k' ≡ (if str_eq key k' then r else view t k'))

pub keep_row : (t : Table) (key : List ℕ) → Valid t → Binds t key (view t key) t
keep_row t key v = (
  v,
  λ k'. elim (Bool-cases (str_eq key k')) [
    | inl same ↦ let e : key ≡ k' = eq_of_str_eq key k' same in rw (same, e) refl
    | inr other ↦ rw other refl
  ],
)
