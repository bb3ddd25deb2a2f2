-- ===== src/Mgr/Children.antt =====
-- What the manager knows of its children: a node runs exactly if it has a pid, and the children that
-- the manager has not waited for are the processes of its nodes, each of one node.
use codex_nos.Base.{
  ℕ, zero, suc, ◌+◌, ◌<◌, ◌≡◌, refl, ◌∙◌, ◌≢◌, inl, inr, not, none, some, List, [], ◌∷◌, ◌||◌,
  length, set, All, ◌==◌, CString, Bool-cases, Option-cases, arith,
}
use codex_nos.Mgr.{
  MgrNode, Os, Mgr, is_running, node_at, refresh_node, refresh_nodes, start_refreshed, force_stop,
  stop_wait, stop_refreshed, sigkill, sigterm, on_node, Note, find_node,
}
use codex_nos.Mgr.Held.{
  one, Fits, held, held-set, one-le-held, one_self, All-set, Fits-node_at, find_node-lt,
}

-- What the manager relies on of the system, with the number of its children that have a pid and
-- that it has not waited for.
pub record Kernel {S : Type 0} (os : Os S) (children : S → ℕ → ℕ) : Type 0 where
  pub fork_child :
      (s : S) (q : ℕ)
      → (os.fork s).0 ≢ 0
      → children (os.fork s).1 q ≡ children s q + one (os.fork s).0 q
  pub fork_fails : (s : S) (q : ℕ) → (os.fork s).0 ≡ 0 → children (os.fork s).1 q ≡ children s q
  pub waitpid_some :
      (p : ℕ) (s : S) (q st : ℕ)
      → (os.waitpid p s).0 ≡ some st
      → children s q ≡ children (os.waitpid p s).1 q + one p q
  pub waitpid_none :
      (p : ℕ) (s : S) (q : ℕ)
      → (os.waitpid p s).0 ≡ none
      → children (os.waitpid p s).1 q ≡ children s q
  pub wait_for_child :
      (p : ℕ) (s : S) (q : ℕ)
      → 0 < children s p
      → children s q ≡ children (os.wait_for p s).1 q + one p q
  pub kill_same : (p sig : ℕ) (s : S) (q : ℕ) → children (os.kill p sig s).1 q ≡ children s q
  pub usleep_same : (s : S) (q : ℕ) → children (os.usleep s) q ≡ children s q

module _ {S : Type 0} (os : Os S) (children : S → ℕ → ℕ) (k : Kernel os children) where
  -- A step from one node and system to another that keeps the account.
  pub record Keeps (n : MgrNode) (s : S) (n' : MgrNode) (s' : S) : Type 0 where
    pub fits : Fits n'
    pub same_def : n'.def ≡ n.def
    pub balance : (q : ℕ) → q ≢ 0 → children s' q + one n.pid q ≡ children s q + one n'.pid q

  pub refresh_node-Keeps :
      (n : MgrNode) (s : S) → Fits n → Keeps n s (refresh_node os n s).0 (refresh_node os n s).1
  unfolding refresh_node
  refresh_node-Keeps n s f = elim (Bool-cases (not (is_running n.state) || n.pid == 0)) [
    | inl e ↦ rw (refresh_node, e) (record { fits = f; same_def = refl; balance = λ q z. refl })
    | inr e ↦ elim (Option-cases (os.waitpid n.pid s).0) [
      | inl w ↦
          rw (refresh_node, e, w)
            (record {
              fits = f;
              same_def = refl;
              balance = λ q z. omega (arith, k.waitpid_none n.pid s q w);
            })
      | inr (st, w) ↦
          rw (refresh_node, e, w)
            (record {
              fits = refl;
              same_def = refl;
              balance = λ q z. ground (arith, k.waitpid_some n.pid s q st w);
            })
    ]
  ]

  pub start_refreshed-Keeps :
      (n : MgrNode) (s : S)
      → Fits n
      → Keeps n s (start_refreshed os n s).0 (start_refreshed os n s).1
  unfolding start_refreshed
  start_refreshed-Keeps n s f = elim (Bool-cases (is_running n.state)) [
    | inl e ↦ rw (start_refreshed, e) (record { fits = f; same_def = refl; balance = λ q z. refl })
    | inr e ↦ elim (Bool-cases (os.executable n.def.binary s)) [
      | inr x ↦
          rw (start_refreshed, e, x) (record { fits = f; same_def = refl; balance = λ q z. refl })
      | inl x ↦ elim (Bool-cases ((os.fork s).0 == 0)) [
        | inl p ↦
            rw (start_refreshed, e, x, p)
              (record {
                fits = f;
                same_def = refl;
                balance = λ q z. omega (arith, k.fork_fails s q (ground (arith, p)));
              })
        | inr p ↦
            rw (start_refreshed, e, x, p)
              (record {
                fits = rw p refl;
                same_def = refl;
                balance =
                    λ q z. ground (arith, k.fork_child s q (λ w. ground (arith, p, w)), f, e, z);
              })
      ]
    ]
  ]

  force_stop-Keeps :
      (n : MgrNode) (s : S)
      → Fits n
      → 0 < children s n.pid
      → Keeps n s (force_stop os n s).0 (force_stop os n s).1
  unfolding force_stop
  force_stop-Keeps n s f c =
      let (sent, s') = os.kill n.pid sigkill s in
      let same = k.kill_same n.pid sigkill s in
      elim (Bool-cases sent) [
        | inl e ↦
            rw (force_stop, e)
              (record {
                fits = refl;
                same_def = refl;
                balance = λ q z.
                    ground (arith, same q, k.wait_for_child n.pid s' q (omega (arith, same n.pid)));
              })
        | inr e ↦
            rw (force_stop, e)
              (record { fits = f; same_def = refl; balance = λ q z. omega (arith, same q) })
      ]

  stop_wait-Keeps :
      (rounds : ℕ) (n : MgrNode) (s : S)
      → Fits n
      → 0 < children s n.pid
      → Keeps n s (stop_wait os rounds n s).0 (stop_wait os rounds n s).1
  unfolding stop_wait
  stop_wait-Keeps zero n s f c = force_stop-Keeps n s f c
  stop_wait-Keeps (suc rounds) n s f c = elim (Option-cases (os.waitpid n.pid s).0) [
    | inl w ↦
        let s' = os.usleep (os.waitpid n.pid s).1 in
        let same : (q : ℕ) → children s' q ≡ children s q =
          λ q. omega (arith, k.usleep_same (os.waitpid n.pid s).1 q, k.waitpid_none n.pid s q w) in
        let r = stop_wait-Keeps rounds n s' f (omega (arith, same n.pid)) in
        rw (stop_wait, w)
          (record {
            fits = r.fits;
            same_def = r.same_def;
            balance = λ q z. omega (arith, r.balance q z, same q);
          })
    | inr (st, w) ↦
        rw (stop_wait, w)
          (record {
            fits = refl;
            same_def = refl;
            balance = λ q z. ground (arith, k.waitpid_some n.pid s q st w);
          })
  ]

  pub stop_refreshed-Keeps :
      (n : MgrNode) (s : S)
      → Fits n
      → (n.pid ≢ 0 → 0 < children s n.pid)
      → Keeps n s (stop_refreshed os n s).0 (stop_refreshed os n s).1
  unfolding stop_refreshed
  stop_refreshed-Keeps n s f c =
      let (sent, s') = os.kill n.pid sigterm s in
      let same = k.kill_same n.pid sigterm s in
      elim (Bool-cases (not (is_running n.state) || n.pid == 0)) [
        | inl e ↦
            rw (stop_refreshed, e) (record { fits = f; same_def = refl; balance = λ q z. refl })
        | inr e ↦ elim (Bool-cases sent) [
          | inr w ↦
              rw (stop_refreshed, e, w)
                (record { fits = f; same_def = refl; balance = λ q z. omega (arith, same q) })
          | inl w ↦
              let alive : 0 < children s n.pid = c (λ z. ground (arith, e, z)) in
              let r = stop_wait-Keeps 30 n s' f (omega (arith, same n.pid, alive)) in
              rw (stop_refreshed, e, w)
                (record {
                  fits = r.fits;
                  same_def = r.same_def;
                  balance = λ q z. omega (arith, r.balance q z, same q);
                })
        ]
      ]

  -- The account of the whole manager.
  pub record IsTracked (nodes : List MgrNode) (s : S) : Type 0 where
    pub all_fit : All Fits nodes
    pub account : (q : ℕ) → q ≢ 0 → held q nodes ≡ children s q

  pub refresh_nodes-Keeps :
      (nodes : List MgrNode) (s : S)
      → All Fits nodes
      → All Fits (refresh_nodes os nodes s).0
        × ((q : ℕ)
            → q ≢ 0
            → children (refresh_nodes os nodes s).1 q + held q nodes
              ≡ children s q + held q (refresh_nodes os nodes s).0)
  unfolding refresh_nodes
  refresh_nodes-Keeps [] s a = (tt, λ q z. refl)
  refresh_nodes-Keeps (n ∷ ns) s a =
      let r = refresh_node-Keeps n s a.0 in
      let (b, c) = refresh_nodes-Keeps ns (refresh_node os n s).1 a.1 in
      ((r.fits, b), λ q z. omega (arith, r.balance q z, c q z))

  pub refresh_nodes-IsTracked :
      (nodes : List MgrNode) (s : S)
      → IsTracked nodes s
      → IsTracked (refresh_nodes os nodes s).0 (refresh_nodes os nodes s).1
  refresh_nodes-IsTracked nodes s t =
      let (a, b) = refresh_nodes-Keeps nodes s t.all_fit in
      record { all_fit = a; account = λ q z. omega (arith, b q z, t.account q z) }

  pub set-IsTracked :
      (nodes : List MgrNode) (i : ℕ) (s s' : S) (n' : MgrNode)
      → i < length nodes
      → IsTracked nodes s
      → Keeps (node_at nodes i) s n' s'
      → IsTracked (set nodes i n') s'
  set-IsTracked nodes i s s' n' h t r = record {
    all_fit = All-set nodes i n' t.all_fit r.fits;
    account = λ q z. omega (arith, held-set q nodes i n' h, r.balance q z, t.account q z);
  }

  Keeps-trans :
      {n n1 n2 : MgrNode} {s s1 s2 : S} → Keeps n s n1 s1 → Keeps n1 s1 n2 s2 → Keeps n s n2 s2
  Keeps-trans a b = record {
    fits = b.fits;
    same_def = b.same_def ∙ a.same_def;
    balance = λ q z. omega (arith, a.balance q z, b.balance q z);
  }

  -- A node that is found, refreshed and acted on.
  module _ (act : MgrNode → S → MgrNode × S × List Note)
      (good : (n : MgrNode) (s : S)
        → Fits n
        → (n.pid ≢ 0 → 0 < children s n.pid)
        → Keeps n s (act n s).0 (act n s).1) where
    pub on_node-IsTracked :
        (name : CString) (m : Mgr S)
        → IsTracked m.nodes m.sys
        → IsTracked (on_node os act name m).nodes (on_node os act name m).sys
    unfolding on_node find_node
    on_node-IsTracked name m t = elim (Option-cases (find_node m.nodes name)) [
      | inl e ↦ rw (on_node, e) t
      | inr (i, e) ↦
          let h = find_node-lt m.nodes name i e in
          let n = node_at m.nodes i in
          let r = refresh_node-Keeps n m.sys (Fits-node_at m.nodes i t.all_fit) in
          let (n1, s1) = refresh_node os n m.sys in
          let t1 = set-IsTracked m.nodes i m.sys s1 n1 h t r in
          let alive : n1.pid ≢ 0 → 0 < children s1 n1.pid = λ z. omega (
            arith,
            t1.account n1.pid z,
            held-set n1.pid m.nodes i n1 h,
            one-le-held n1.pid m.nodes i h,
            one_self n1.pid,
          ) in
          rw (on_node, e)
            (set-IsTracked m.nodes i m.sys (act n1 s1).1 (act n1 s1).0 h t
              (Keeps-trans r (good n1 s1 r.fits alive)))
    ]
