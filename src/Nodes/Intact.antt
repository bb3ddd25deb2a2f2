-- ===== src/Nodes/Intact.antt =====
-- src/core/nos_node_mgr.c, `node_reload_component`: a reload that fails leaves the node as it was.
use codex_nos.Base.{
  ℕ, ◌≤◌, ◌<◌, ◌≡◌, refl, ap, ◌∙◌, inl, inr, Bool, true, false, not, Option, none, some, List, [],
  ◌∷◌, ◌&&◌, ok, get_or, get_elem?, set, length, length-append, length-set, get_or-append,
  get_or-set_ne, set_same, length-take_le, get_elem?-set_self, lt_of_get_elem?, ◌-◌, leb, CString,
  Bool-cases, Option-cases, arith,
}
use codex_nos.Sched.{Thread, index_of, unregister_component, register_component}
use codex_nos.Services.Route.{
  Component, null_component, World, is_ok, st_error, st_inited, st_stopped,
}
use codex_nos.Nodes.{
  Node, comp_at, closed, record_effect, is_stopped, mark_stopped, call_stop, register_on,
  unregister_on, destroy_component,
}
use codex_nos.Nodes.Staging.{Platform, load_staged, fresh_comp, add_comp, discard}

-- All that was in the node is still as it was; there may be new components behind the old ones.
pub record Intact (n n' : Node) : Type 0 where
  pub loaded : n'.world.loaded_info ≡ n.world.loaded_info
  pub registry : n'.world.registry ≡ n.world.registry
  pub threads : n'.world.threads ≡ n.world.threads
  pub pool : n'.world.pool ≡ n.world.pool
  pub timers : n'.timers ≡ n.timers
  pub more : length n.world.components ≤ length n'.world.components
  pub comps : (c : ℕ) → c < length n.world.components → comp_at n' c ≡ comp_at n c

pub Intact-refl : (n : Node) → Intact n n
Intact-refl n = record {
  loaded = refl;
  registry = refl;
  threads = refl;
  pool = refl;
  timers = refl;
  more = omega arith;
  comps = λ c h. refl;
}

pub call_stop-same :
    (wanted : Bool) (c : ℕ) (n : Node)
    → ((call_stop wanted c n).world ≡ n.world) × ((call_stop wanted c n).timers ≡ n.timers)
call_stop-same true c n = (refl, refl)
call_stop-same false c n = (refl, refl)

-- A node with the world and the timers of one that is intact.
same_world-Intact :
    (n n1 n2 : Node) → Intact n n1 → n2.world ≡ n1.world → n2.timers ≡ n1.timers → Intact n n2
same_world-Intact n n1 n2 r w t = record {
  loaded = ap (λ (z : World). z.loaded_info) w ∙ r.loaded;
  registry = ap (λ (z : World). z.registry) w ∙ r.registry;
  threads = ap (λ (z : World). z.threads) w ∙ r.threads;
  pool = ap (λ (z : World). z.pool) w ∙ r.pool;
  timers = t ∙ r.timers;
  more = omega (arith, r.more, ap (λ (z : World). length z.components) w);
  comps = λ c h. ap (λ (z : World). get_or z.components c null_component) w ∙ r.comps c h;
}

mark_stopped-Intact :
    (n n1 : Node) (c : ℕ)
    → Intact n n1
    → length n.world.components ≤ c
    → Intact n (mark_stopped c n1)
mark_stopped-Intact n n1 c r h =
    let v : Component = record (comp_at n1 c) { status = st_stopped } in
    record {
      loaded = r.loaded;
      registry = r.registry;
      threads = r.threads;
      pool = r.pool;
      timers = r.timers;
      more = omega (arith, r.more, length-set n1.world.components c v);
      comps = λ d q.
          get_or-set_ne n1.world.components c d v null_component (λ z. omega (arith, z))
          ∙ r.comps d q;
    }

-- The destruction of a component that is not an old one.
pub destroy-Intact :
    (n n1 : Node) (c handle : ℕ)
    → Intact n n1
    → length n.world.components ≤ c
    → Intact n (destroy_component c handle n1)
unfolding destroy_component
destroy-Intact n n1 c handle r h = elim (Bool-cases (is_stopped (comp_at n1 c).status)) [
  | inl e ↦
      same_world-Intact n n1 (destroy_component c handle n1) r (rw (destroy_component, e) refl)
        (rw (destroy_component, e) refl)
  | inr e ↦
      let (w, t) = call_stop-same (comp_at n1 c).stop c (mark_stopped c n1) in
      same_world-Intact n (mark_stopped c n1) (destroy_component c handle n1)
        (mark_stopped-Intact n n1 c r h) (rw (destroy_component, e) w) (rw (destroy_component, e) t)
]

add-Intact : (n : Node) (v : Component) → Intact n (add_comp v n).1
add-Intact n v = record {
  loaded = refl;
  registry = refl;
  threads = refl;
  pool = refl;
  timers = refl;
  more = omega (arith, length-append n.world.components (v ∷ []));
  comps = λ c h. get_or-append n.world.components (v ∷ []) c null_component h;
}

discard-Intact : (n : Node) (v : Component) (handle : ℕ) → Intact n (discard v handle n).1
discard-Intact n v handle =
    destroy-Intact n (add_comp (record v { status = st_error }) n).1 (length n.world.components)
      handle (add-Intact n (record v { status = st_error })) (omega arith)

module _ (platform : Platform) where
  -- A component that is staged comes after the old ones.
  abbrev pub Behind : Node → Option (ℕ × ℕ) → Type 0
  Behind n none = Unit
  Behind n (some (d, handle)) = length n.world.components ≤ d

  pub load_staged-Intact :
      (id : ℕ) (name lib : CString) (n : Node)
      → Intact n (load_staged platform id name lib n).1
        × Behind n (load_staged platform id name lib n).0
  unfolding load_staged
  load_staged-Intact id name lib n = elim (Bool-cases (platform.readable lib)) [
    | inr e ↦ rw (load_staged, e) (Intact-refl n, tt)
    | inl e ↦ elim (Option-cases (platform.dlopen lib)) [
      | inl z ↦ rw (load_staged, e, z) (Intact-refl n, tt)
      | inr (handle, z) ↦ elim (Option-cases (platform.exports handle)) [
        | inl x ↦
            rw (load_staged, e, z, x)
              (
                same_world-Intact n n (record_effect (closed handle) n) (Intact-refl n) refl refl,
                tt,
              )
        | inr (export, x) ↦
            let (st, v) = export (fresh_comp id name) in
            elim (Bool-cases (is_ok st)) [
              | inr y ↦ rw (load_staged, e, z, x, y) (discard-Intact n v handle, tt)
              | inl y ↦ elim (Bool-cases (v.init && not (is_ok (platform.init v)))) [
                | inl u ↦ rw (load_staged, e, z, x, y, u) (discard-Intact n v handle, tt)
                | inr u ↦
                    rw (load_staged, e, z, x, y, u)
                      (add-Intact n (record v { status = st_inited }), omega arith)
              ]
            ]
      ]
    ]
  ]

-- No thread holds more components than its array has room for.
abbrev pub FewComponents : Node → Type 0
FewComponents n =
    (t : ℕ) (th : Thread) → get_elem? n.world.threads t ≡ some th → length th.components ≤ 32

index_of_pos : (ys : List ℕ) (x i : ℕ) → index_of ys x ≡ some i → 0 < length ys
index_of_pos [] x i e = absurd (cc)
index_of_pos (y ∷ ys) x i e = omega arith

unregister_component-length :
    (th : Thread) (c : ℕ)
    → is_ok (unregister_component th c).0 ≡ true
    → length (unregister_component th c).1.components < length th.components
unfolding unregister_component
unregister_component-length th c e = elim (Option-cases (index_of th.components c)) [
  | inl z ↦ absurd (ground (arith, rw (unregister_component, z) at e))
  | inr (i, z) ↦
      let xs = th.components in
      let p = index_of_pos xs c i z in
      rw (unregister_component, z)
        (omega (
          arith,
          length-set xs i (get_or xs (length xs - 1) 0),
          length-take_le (length xs - 1) (set xs i (get_or xs (length xs - 1) 0)),
        ))
]

unregister_component-err :
    (th : Thread) (c : ℕ)
    → is_ok (unregister_component th c).0 ≡ false
    → (unregister_component th c).1 ≡ th
unfolding unregister_component
unregister_component-err th c e = elim (Option-cases (index_of th.components c)) [
  | inl z ↦ rw (unregister_component, z) refl
  | inr (i, z) ↦ absurd (ground (arith, rw (unregister_component, z) at e))
]

register_component-ok :
    (th : Thread) (c : ℕ) → length th.components < 32 → (register_component th c).0 ≡ ok
unfolding register_component
register_component-ok th c h =
    let e : leb 32 (length th.components) ≡ false = ground arith in rw (register_component, e) refl

pub unregister_on-err :
    (t : Option ℕ) (c : ℕ) (n : Node)
    → is_ok (unregister_on t c n).0 ≡ false
    → (unregister_on t c n).1 ≡ n
unfolding unregister_on
unregister_on-err none c n e = refl
unregister_on-err (some t) c n e = elim (Option-cases (get_elem? n.world.threads t)) [
  | inl z ↦ rw (unregister_on, z) refl
  | inr (th, z) ↦
      let same = unregister_component-err th c (rw (unregister_on, z) at e) in
      rw (unregister_on, z)
        (ap (λ l. record n { world = record n.world { threads = l } })
          (ap (set n.world.threads t) same ∙ set_same n.world.threads t th z))
]

-- After the old component has left its thread, the new one finds room.
pub register-unregister_ok :
    (t : Option ℕ) (c d : ℕ) (n : Node)
    → FewComponents n
    → is_ok (unregister_on t c n).0 ≡ true
    → (register_on t d (unregister_on t c n).1).0 ≡ ok
unfolding unregister_on register_on
register-unregister_ok none c d n few e = absurd (ground arith)
register-unregister_ok (some t) c d n few e = elim (Option-cases (get_elem? n.world.threads t)) [
  | inl z ↦ absurd (ground (arith, rw (unregister_on, z) at e))
  | inr (th, z) ↦
      let th' = (unregister_component th c).1 in
      let short = unregister_component-length th c (rw (unregister_on, z) at e) in
      let found = get_elem?-set_self n.world.threads t th' (lt_of_get_elem? n.world.threads t z) in
      rw (unregister_on, z, register_on, found)
        (register_component-ok th' d (omega (arith, short, few t th z)))
]
