-- ===== src/Services/Embedded.antt =====
-- src/core/nos_service.c: the embedded services of a node, found by name. `g_embedded_count` is the
-- length of the list; operation tables are pointers.
use codex_nos.Base.{
  ℕ, ◌≡◌, refl, inl, inr, Option, none, some, List, [], ◌∷◌, ◌++◌, Status, ok, err, length, leb,
  if◌then◌else◌, CString, str_eq, Bool-cases,
}

-- `nos_embedded_service_t`
pub record EmbeddedService : Type 0 where
  pub service_name : CString
  pub ops : ℕ

abbrev pub max_embedded_services : ℕ
max_embedded_services = 32

-- `nos_embedded_service_register`
unfoldable pub embedded_register :
    List EmbeddedService → CString → ℕ → Status × List EmbeddedService
embedded_register reg name ops =
    if leb max_embedded_services (length reg)
    then (err, reg)
    else (ok, reg ++ record { service_name = name; ops = ops } ∷ [])

-- `nos_embedded_service_get`
unfoldable pub embedded_get : List EmbeddedService → CString → Option ℕ
embedded_get [] name = none
embedded_get (e ∷ reg) name =
    let rest = embedded_get reg name in if str_eq e.service_name name then some e.ops else rest

embedded_get-append :
    (reg : List EmbeddedService) (name : CString) (ops : ℕ) (name' : CString)
    → embedded_get (reg ++ record { service_name = name; ops = ops } ∷ []) name'
      ≡ elim (embedded_get reg name') [
        | some o ↦ some o
        | none ↦ if str_eq name name' then some ops else none
      ]
unfolding embedded_get
embedded_get-append [] name ops name' = refl
embedded_get-append (e ∷ reg) name ops name' = elim (Bool-cases (str_eq e.service_name name')) [
  | inl q ↦ rw (embedded_get, q) refl
  | inr q ↦ rw (embedded_get, q) (embedded_get-append reg name ops name')
]

-- Registering fails exactly when 32 services are there. It never changes what a name that was
-- found gives, so the first registration of a name stays; a new name gives the new table.
abbrev pub EmbeddedSpec :
    List EmbeddedService → CString → ℕ → Status × List EmbeddedService → Type 0
EmbeddedSpec reg name ops res =
    if leb 32 (length reg)
    then res ≡ (err, reg)
    else (res.0 ≡ ok)
      × ((name' : CString)
          → embedded_get res.1 name' ≡ elim (embedded_get reg name') [
            | some o ↦ some o
            | none ↦ if str_eq name name' then some ops else none
          ])

-- Registering an embedded service fails exactly when 32 are registered, changing nothing; else a
-- name that was found before gives what it gave, and the new name, if it was not, the new table.
pub embedded_register_correct :
    (reg : List EmbeddedService) (name : CString) (ops : ℕ)
    → EmbeddedSpec reg name ops (embedded_register reg name ops)
unfolding embedded_register
embedded_register_correct reg name ops = elim (Bool-cases (leb 32 (length reg))) [
  | inl e ↦ rw e refl
  | inr e ↦ rw e (refl, embedded_get-append reg name ops)
]
