-- ===== src/Mgr/Control.antt =====
-- src/mgr/nos_mgr_main.c: what a stop and a restart come to, when the system does what is asked.
use codex_nos.Base.{
  ℕ, zero, suc, ◌<◌, ◌≡◌, refl, ap, sym, ◌∙◌, ◌≢◌, inl, inr, Bool, true, false, not, some, List, [],
  ◌∷◌, ◌++◌, ◌||◌, length, set, length-set, get_or-set_self, get_or-set_ne, find_index, ◌==◌,
  CString, str_eq, Bool-cases, Option-cases, arith,
}
use mathlib.Core.Path.{fun_ext}
use codex_nos.Mgr.{
  NodeDef, MgrNode, node_running, Os, Mgr, is_running, fresh_node, no_def, node_at, find_node,
  refresh_node, start_refreshed, force_stop, stop_wait, stop_refreshed, on_node, start_node,
  stop_node, restart_node, sigkill, sigterm, Note, started,
}
use codex_nos.Mgr.Held.{Fits, find_node-lt}

module _ {S : Type 0} (os : Os S) where
  -- Every signal is delivered.
  abbrev pub Obeys : Type 0
  Obeys = (p sig : ℕ) (s : S) → (os.kill p sig s).0 ≡ true

  refresh_node-def : (n : MgrNode) (s : S) → (refresh_node os n s).0.def ≡ n.def
  unfolding refresh_node
  refresh_node-def n s = ground arith

  refresh_node-Fits : (n : MgrNode) (s : S) → Fits n → Fits (refresh_node os n s).0
  unfolding refresh_node
  refresh_node-Fits n s f = ground arith

  stop_wait-stops :
      (rounds : ℕ) (n : MgrNode) (s : S)
      → Obeys
      → (is_running (stop_wait os rounds n s).0.state ≡ false)
        × ((stop_wait os rounds n s).0.def ≡ n.def)
  unfolding stop_wait force_stop
  stop_wait-stops zero n s o = rw (o n.pid sigkill s) (refl, refl)
  stop_wait-stops (suc rounds) n s o = elim (Option-cases (os.waitpid n.pid s).0) [
    | inl w ↦ rw (stop_wait, w) (stop_wait-stops rounds n (os.usleep (os.waitpid n.pid s).1) o)
    | inr (st, w) ↦ rw (stop_wait, w) (refl, refl)
  ]

  stop_refreshed-stops :
      (n : MgrNode) (s : S)
      → Fits n
      → Obeys
      → (is_running (stop_refreshed os n s).0.state ≡ false)
        × ((stop_refreshed os n s).0.def ≡ n.def)
  unfolding stop_refreshed
  stop_refreshed-stops n s f o = elim (Bool-cases (not (is_running n.state) || n.pid == 0)) [
    | inl e ↦ rw (stop_refreshed, e) (ground (arith, f, e), refl)
    | inr e ↦
        rw (stop_refreshed, e, o n.pid sigterm s)
          (stop_wait-stops 30 n (os.kill n.pid sigterm s).1 o)
  ]

  def_at :
      (nodes : List MgrNode) (i : ℕ) (n : MgrNode) (j : ℕ)
      → i < length nodes
      → n.def ≡ (node_at nodes i).def
      → (node_at (set nodes i n) j).def ≡ (node_at nodes j).def
  def_at [] i n j h e = refl
  def_at (m ∷ ns) zero n zero h e = e
  def_at (m ∷ ns) zero n (suc j) h e = refl
  def_at (m ∷ ns) (suc i) n zero h e = refl
  def_at (m ∷ ns) (suc i) n (suc j) h e = def_at ns i n j (omega arith) e

  find_node_def :
      (nodes : List MgrNode) (i : ℕ) (n : MgrNode) (name : CString)
      → i < length nodes
      → n.def ≡ (node_at nodes i).def
      → find_node (set nodes i n) name ≡ find_node nodes name
  unfolding find_node
  find_node_def nodes i n [] h e = refl
  find_node_def nodes i n (c ∷ s) h e =
      ap (λ (l : ℕ). find_index (λ j. str_eq (node_at (set nodes i n) j).def.name (c ∷ s)) l)
        (length-set nodes i n)
      ∙ ap (λ (f : ℕ → Bool). find_index f (length nodes))
          (fun_ext (λ j. ap (λ (d : NodeDef). str_eq d.name (c ∷ s)) (def_at nodes i n j h e)))

  pub stop_node_correct :
      (name : CString) (m : Mgr S) (i : ℕ)
      → find_node m.nodes name ≡ some i
      → Fits (node_at m.nodes i)
      → Obeys
      → let m' = stop_node os name m in
        (is_running (node_at m'.nodes i).state ≡ false)
        × (find_node m'.nodes name ≡ some i)
        × ((j : ℕ) → j ≢ i → node_at m'.nodes j ≡ node_at m.nodes j)
  unfolding stop_node on_node
  stop_node_correct name m i e f o =
      let h = find_node-lt m.nodes name i e in
      let n = node_at m.nodes i in
      let (n1, s1) = refresh_node os n m.sys in
      let (a, b) = stop_refreshed-stops n1 s1 (refresh_node-Fits n m.sys f) o in
      let n2 = (stop_refreshed os n1 s1).0 in
      rw (stop_node, on_node, e)
        (
          ap (λ (z : MgrNode). is_running z.state)
                (get_or-set_self m.nodes i n2 (fresh_node no_def) h)
              ∙ a,
          find_node_def m.nodes i n2 name h (b ∙ refresh_node-def n m.sys) ∙ e,
          λ j ne. get_or-set_ne m.nodes i j n2 (fresh_node no_def) (λ z. ne (sym z)),
        )

  refresh_node_idle :
      (n : MgrNode) (s : S) → is_running n.state ≡ false → refresh_node os n s ≡ (n, s)
  unfolding refresh_node
  refresh_node_idle n s e = rw (refresh_node, e) refl

  module _ (executable : (path : CString) (s : S) → os.executable path s ≡ true)
      (forks : (s : S) → (os.fork s).0 ≢ 0) where
    -- Node `i` runs, the last that was printed is that it was started, and the nodes beside it are as in `m`.
    abbrev pub IsStarted : Mgr S → ℕ → Mgr S → Type 0
    IsStarted m i m' =
        let n = node_at m'.nodes i in
        (is_running n.state ≡ true)
        × (n.pid ≢ 0)
        × ((before : List Note) × (m'.printed ≡ before ++ started n.def.name n.pid ∷ []))
        × ((j : ℕ) → j ≢ i → node_at m'.nodes j ≡ node_at m.nodes j)

    -- The node that a start makes of a node that does not run.
    abbrev running : MgrNode → S → MgrNode
    running n s = record n {
      pid = (os.fork s).0;
      state = node_running;
      started_at = os.time (os.fork s).1;
      exit_status = 0;
    }

    start_node_value :
        (name : CString) (m : Mgr S) (i : ℕ)
        → find_node m.nodes name ≡ some i
        → is_running (node_at m.nodes i).state ≡ false
        → let n = running (node_at m.nodes i) m.sys in
          start_node os name m ≡ record m {
            nodes = set m.nodes i n;
            sys = (os.fork m.sys).1;
            printed = m.printed ++ started n.def.name n.pid ∷ [];
          }
    unfolding start_node on_node start_refreshed
    start_node_value name m i e idle =
        let n = node_at m.nodes i in
        let p : ((os.fork m.sys).0 == 0) ≡ false = ground (arith, forks m.sys) in
        rw
          (
            start_node,
            on_node,
            e,
            refresh_node_idle n m.sys idle,
            start_refreshed,
            idle,
            executable n.def.binary m.sys,
            p,
          )
          refl

    start_stopped :
        (name : CString) (m : Mgr S) (i : ℕ)
        → find_node m.nodes name ≡ some i
        → is_running (node_at m.nodes i).state ≡ false
        → IsStarted m i (start_node os name m)
    start_stopped name m i e idle =
        let n = running (node_at m.nodes i) m.sys in
        let h = find_node-lt m.nodes name i e in
        let at_i = get_or-set_self m.nodes i n (fresh_node no_def) h in
        rw (start_node_value name m i e idle) (
          ap (λ (z : MgrNode). is_running z.state) at_i,
          λ z. forks m.sys (sym (ap (λ (z : MgrNode). z.pid) at_i) ∙ z),
          (m.printed, ap (λ (z : MgrNode). m.printed ++ started z.def.name z.pid ∷ []) (sym at_i)),
          λ j ne. get_or-set_ne m.nodes i j n (fresh_node no_def) (λ z. ne (sym z)),
        )

    -- If signals are delivered, binaries can be executed and fork succeeds, a restart of a node that
    -- is known, whose state agrees with its pid, ends with the node running, the start of its
    -- process printed last, and the other nodes as they were.
    pub restart_node_correct :
        (name : CString) (m : Mgr S) (i : ℕ)
        → find_node m.nodes name ≡ some i
        → Fits (node_at m.nodes i)
        → Obeys
        → IsStarted m i (restart_node os name m)
    unfolding restart_node
    restart_node_correct name m i e f o = elim (Bool-cases (is_running (node_at m.nodes i).state)) [
      | inr idle ↦ rw (restart_node, e, idle) (start_stopped name m i e idle)
      | inl r ↦
          let (a, b, c) = stop_node_correct name m i e f o in
          let (d, p, q, w) = start_stopped name (stop_node os name m) i b a in
          rw (restart_node, e, r) (d, p, q, λ j ne. w j ne ∙ c j ne)
    ]
