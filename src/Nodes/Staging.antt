-- ===== src/Nodes/Staging.antt =====
-- src/core/nos_node_mgr.c, `node_load_component_staged`.
use codex_nos.Base.{
  ℕ, Bool, not, Option, none, some, [], ◌∷◌, ◌++◌, ◌&&◌, Status, length, if◌then◌else◌, CString,
}
use codex_nos.Services.Route.{Component, null_component, st_loaded, st_inited, st_error, is_ok}
use codex_nos.Nodes.{Node, closed, record_effect, destroy_component}

-- The libraries: whether one can be read, its handle, its export function and the `init` callback.
pub record Platform : Type 0 where
  pub readable : CString → Bool
  pub dlopen : CString → Option ℕ
  pub exports : ℕ → Option (Component → Status × Component)
  pub init : Component → Status

-- The component after `calloc`, whose pointer is the next that is free.
abbrev pub add_comp : Component → Node → ℕ × Node
add_comp v n = (
  length n.world.components,
  record n { world = record n.world { components = n.world.components ++ v ∷ [] } },
)

abbrev pub fresh_comp : ℕ → CString → Component
fresh_comp id name = record null_component { id = id; name = name; status = st_loaded }

-- A component in error, which is destroyed.
abbrev pub discard : Component → ℕ → Node → Option (ℕ × ℕ) × Node
discard v handle n =
    let (c, n') = add_comp (record v { status = st_error }) n in
    (none, destroy_component c handle n')

module _ (platform : Platform) where
  -- `node_load_component_staged`: the component and its library.
  unfoldable pub load_staged : ℕ → CString → CString → Node → Option (ℕ × ℕ) × Node
  load_staged id name lib n =
      if not (platform.readable lib) then (none, n) else elim (platform.dlopen lib) [
        | none ↦ (none, n)
        | some handle ↦ elim (platform.exports handle) [
          | none ↦ (none, record_effect (closed handle) n)
          | some export ↦
              let (st, v) = export (fresh_comp id name) in
              let (c, n') = add_comp (record v { status = st_inited }) n in
              if not (is_ok st)
              then discard v handle n
              else if v.init && not (is_ok (platform.init v))
              then discard v handle n
              else (some (c, handle), n')
        ]
      ]
