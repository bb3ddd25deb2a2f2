-- ===== src/Kv/Table/Subs.antt =====
-- Subscriptions against the abstract table.
use codex_nos.Base.{ℕ, ◌≡◌, ◌++◌, Option, none, some, List, [], ◌∷◌, if◌then◌else◌, Status, ok, err}
use codex_nos.Kv.Table.{Sub, Table, has_sub, remove_sub}
use codex_nos.Kv.Table.Subscribers.{Absent}
use codex_nos.Kv.Table.Memory.{Placed}
use codex_nos.Kv.Table.Valid.{Valid, Row, view}
use codex_nos.Kv.Table.Laws.{Binds, bound, subs_of}

-- What `nos_kv_subscribe` and `nos_kv_unsubscribe` make of the subscribers.
abbrev pub with_sub : List Sub → ℕ → ℕ → List Sub
with_sub ss n a = if has_sub ss n a then ss else record { notify = n; arg = a } ∷ ss

abbrev pub map_subs : (List Sub → List Sub) → Option Row → Option Row
map_subs f none = none
map_subs f (some r) = some (record r { subs = f r.subs })

-- A result with a status, the subscribers of the key, and everything else as it was.
abbrev pub Result : Table → List ℕ → Status → List Sub → Status × Table → Type 0
Result t key status ss r =
    (r.0 ≡ status) × Binds t key (map_subs (λ _. ss) (view t key)) r.1 × Placed r.1

abbrev pub callback : ℕ → ℕ → Sub
callback n a = record { notify = n; arg = a }

-- A subscription: to a key that is not bound, of a new callback, and of one that is there.
pub data SubscribeSpec (t : Table) (key : List ℕ) (n a : ℕ) (r : Status × Table) : Type 0 where
  unbound : view t key ≡ none → Result t key err [] r → SubscribeSpec t key n a r
  fresh :
      (row : Row)
      → view t key ≡ some row
      → Absent (callback n a) row.subs
      → Result t key ok (callback n a ∷ row.subs) r
      → SubscribeSpec t key n a r
  again :
      (row : Row) (xs ys : List Sub)
      → view t key ≡ some row
      → row.subs ≡ xs ++ callback n a ∷ ys
      → Result t key ok row.subs r
      → SubscribeSpec t key n a r

-- An unsubscription: from a key that is not bound, of a callback that is not there, and of one that
-- is.
pub data UnsubscribeSpec (t : Table) (key : List ℕ) (n a : ℕ) (r : Status × Table) : Type 0 where
  unbound : view t key ≡ none → Result t key err [] r → UnsubscribeSpec t key n a r
  stranger :
      (row : Row)
      → view t key ≡ some row
      → Absent (callback n a) row.subs
      → Result t key err row.subs r
      → UnsubscribeSpec t key n a r
  removed :
      (row : Row) (xs ys : List Sub)
      → view t key ≡ some row
      → row.subs ≡ xs ++ callback n a ∷ ys
      → Absent (callback n a) xs
      → Result t key ok (xs ++ ys) r
      → UnsubscribeSpec t key n a r

module _ (t : Table) (key : List ℕ) (n a : ℕ) where
  abbrev SubscribeLem : Status × Table → Type 0
  SubscribeLem r =
      (r.0 ≡ (if bound (view t key) then ok else err))
      × Binds t key (map_subs (λ ss. with_sub ss n a) (view t key)) r.1

  abbrev UnsubscribeLem : Status × Table → Type 0
  UnsubscribeLem r =
      (r.0 ≡ (if has_sub (subs_of (view t key)) n a then ok else err))
      × Binds t key (map_subs (λ ss. remove_sub ss n a) (view t key)) r.1
