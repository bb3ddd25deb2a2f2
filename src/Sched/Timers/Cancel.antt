-- ===== src/Sched/Timers/Cancel.antt =====
-- `nos_scheduler_cancel_timers_by_owner`: exactly the timers of the owner leave the heap.
use mathlib.Core.List.{Perm}
use codex_nos.Base.{
  ℕ, ◌/◌, ◌<◌, ◌≡◌, refl, sym, ap, ◌∙◌, false, none, some, List, [], ◌∷◌, length, length-set,
  get_or-set, get_or-set_ne, set, All, ◌==◌, inl, inr, Bool-cases, Option-cases, if◌then◌else◌,
  arith,
}
use mathlib.Core.Path.{subst}
use codex_nos.Heap.{rebuild}
use codex_nos.Heap.Order.{IsHeap}
use codex_nos.Heap.Down.{rebuild_correct}
use codex_nos.Sched.{Thread, index_of}
use codex_nos.Sched.Timers.{
  Timer, null_timer, timer_at, expiry, disowned, owned_by, cancel_loop, cancel_timers_by_owner,
}
use codex_nos.Sched.Timers.Keys.{head_ne, tail_none}

-- No timer is in the heap twice.
abbrev pub Distinct : List ℕ → Type 0
Distinct [] = Unit
Distinct (p ∷ nodes) = (index_of nodes p ≡ none) × Distinct nodes

module _ (self : ℕ) where
  -- The nodes whose timers have another owner.
  abbrev pub of_others : List Timer → List ℕ → List ℕ
  of_others timers [] = []
  of_others timers (p ∷ nodes) =
      let rest = of_others timers nodes in
      if owned_by self (timer_at timers p) then rest else p ∷ rest

  of_others-set :
      (timers : List Timer) (nodes : List ℕ) (p : ℕ) (w : Timer)
      → index_of nodes p ≡ none
      → of_others (set timers p w) nodes ≡ of_others timers nodes
  of_others-set timers [] p w h = refl
  of_others-set timers (q ∷ nodes) p w h =
      rw
        (
          get_or-set_ne timers p q w null_timer (λ e. head_ne q nodes p h (sym e)),
          of_others-set timers nodes p w (tail_none q nodes p h),
        )
        refl

  cancel_loop-kept :
      (nodes : List ℕ) (timers : List Timer)
      → Distinct nodes
      → (cancel_loop self nodes timers).1 ≡ of_others timers nodes
  unfolding cancel_loop
  cancel_loop-kept [] timers d = refl
  cancel_loop-kept (p ∷ nodes) timers (fresh, d) =
      elim (Bool-cases (owned_by self (timer_at timers p))) [
        | inl e ↦
            rw (cancel_loop, of_others, e)
              (cancel_loop-kept nodes (set timers p (disowned (timer_at timers p))) d
                ∙ of_others-set timers nodes p (disowned (timer_at timers p)) fresh)
        | inr e ↦ rw (cancel_loop, of_others, e) (ap (◌∷◌ p) (cancel_loop-kept nodes timers d))
      ]

  -- The timer `q` after the owner's timers among `nodes` are cancelled.
  abbrev pub cancelled : List ℕ → Timer → ℕ → Timer
  cancelled nodes w q =
      if owned_by self w then elim (index_of nodes q) [ none ↦ w | some i ↦ disowned w ] else w

  disowned_free : (w : Timer) → owned_by self (disowned w) ≡ false
  disowned_free w = refl

  cancelled_free :
      (nodes : List ℕ) (w : Timer) (q : ℕ) → owned_by self w ≡ false → cancelled nodes w q ≡ w
  cancelled_free nodes w q e = rw e refl

  cancelled_cons :
      (p : ℕ) (nodes : List ℕ) (w : Timer) (q : ℕ)
      → (p == q) ≡ false
      → cancelled (p ∷ nodes) w q ≡ cancelled nodes w q
  cancelled_cons p nodes w q ne = elim (Option-cases (index_of nodes q)) [
    | inl e ↦ rw (ne, e) refl
    | inr (i, e) ↦ rw (ne, e) refl
  ]

  cancelled_nil : (w : Timer) (q : ℕ) → w ≡ cancelled [] w q
  cancelled_nil w q = elim (Bool-cases (owned_by self w)) [ inl e ↦ rw e refl | inr e ↦ rw e refl ]

  cancel_loop-timers :
      (nodes : List ℕ) (timers : List Timer) (q : ℕ)
      → All (λ p. p < length timers) nodes
      → timer_at (cancel_loop self nodes timers).0 q ≡ cancelled nodes (timer_at timers q) q
  unfolding cancel_loop
  cancel_loop-timers [] timers q h = cancelled_nil (timer_at timers q) q
  cancel_loop-timers (p ∷ nodes) timers q (inside, h) =
      let w = timer_at timers p in
      let next = set timers p (disowned w) in
      let h' : All (λ p. p < length next) nodes =
        subst (λ n. All (λ p. p < n) nodes) (sym (length-set timers p (disowned w))) h in
      elim (Bool-cases (owned_by self w)) [
        | inl e ↦ elim (Bool-cases (p == q)) [
          | inl same ↦
              let at : timer_at next q ≡ disowned w =
                ground (arith, get_or-set timers p q (disowned w) null_timer inside) in
              let there : timer_at timers p ≡ timer_at timers q =
                ap (timer_at timers) (ground (arith, same)) in
              let left : cancelled nodes (timer_at next q) q ≡ disowned w =
                ap (λ z. cancelled nodes z q) at ∙ cancelled_free nodes (disowned w) q refl in
              let right : cancelled (p ∷ nodes) (timer_at timers q) q ≡ disowned w =
                subst (λ z. cancelled (p ∷ nodes) z q ≡ disowned w) there (rw (e, same) refl) in
              rw (cancel_loop, e) (cancel_loop-timers nodes next q h' ∙ left ∙ sym right)
          | inr other ↦
              let at : timer_at next q ≡ timer_at timers q =
                ground (arith, get_or-set timers p q (disowned w) null_timer inside) in
              rw (cancel_loop, e)
                (cancel_loop-timers nodes next q h'
                  ∙ ap (λ z. cancelled nodes z q) at
                  ∙ sym (cancelled_cons p nodes (timer_at timers q) q other))
        ]
        | inr e ↦
            rw (cancel_loop, e)
              (cancel_loop-timers nodes timers q h ∙ elim (Bool-cases (p == q)) [
                | inl same ↦
                    let free : owned_by self (timer_at timers q) ≡ false =
                      ap (λ z. owned_by self (timer_at timers z)) (ground (arith, same)) ∙ e in
                    cancelled_free nodes (timer_at timers q) q free
                    ∙ sym (cancelled_free (p ∷ nodes) (timer_at timers q) q free)
                | inr other ↦ sym (cancelled_cons p nodes (timer_at timers q) q other)
              ])
      ]

  -- Cancelling an owner's timers on a thread whose heap holds each timer once leaves a heap of
  -- exactly the timers with another owner, marks each cancelled timer as stopped and without owner,
  -- and changes no other timer; the heap need not be in order before.
  pub cancel_timers_correct :
      (timers : List Timer) (t : Thread)
      → Distinct t.nodes
      → All (λ p. p < length timers) t.nodes
      → IsHeap
          (expiry (cancel_timers_by_owner self timers t).0)
          (cancel_timers_by_owner self timers t).1.nodes
        × Perm (cancel_timers_by_owner self timers t).1.nodes (of_others timers t.nodes)
        × ((q : ℕ)
            → timer_at (cancel_timers_by_owner self timers t).0 q
              ≡ cancelled t.nodes (timer_at timers q) q)
  unfolding cancel_timers_by_owner
  cancel_timers_correct timers t d inside =
      let r = cancel_loop self t.nodes timers in
      let (o, p) = rebuild_correct (expiry r.0) r.1 in
      (
        o,
        subst (λ z. Perm (rebuild (expiry r.0) (length r.1 / 2) r.1) z)
            (cancel_loop-kept t.nodes timers d) p,
        λ q. cancel_loop-timers t.nodes timers q inside,
      )
