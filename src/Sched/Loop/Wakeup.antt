-- ===== src/Sched/Loop/Wakeup.antt =====
-- src/core/nos_scheduler.c, `nos_scheduler_run_loop`: no wake-up is lost.
use mathlib.Core.Path.{subst}
use codex_nos.Base.{
  ℕ, ◌<◌, ◌≡◌, refl, ◌∙◌, sym, ap, ◌⊎◌, inl, inr, Bool, true, false, ◌==◌, Bool-cases, ==_self,
  arith,
}
use codex_nos.Sched.{Thread}
use codex_nos.Sched.Queue.{dequeue}
use codex_nos.Sched.Loop.{
  after_delivery, LoopPc, top, spin, choose, deliver, poll, falling, checking, backing, waiting,
  woken, handling, done, pending, LoopMove, SenderPc, idle, sent, writing, SenderMove, System,
  update, Step, loop_step, sender_step, Reach, begin, next,
}

-- The places at which the flag is set.
abbrev pub asleep : LoopPc → Bool
asleep checking = true
asleep backing = true
asleep waiting = true
asleep (woken ready) = true
asleep _ = false

abbrev pub is_idle : SenderPc → Bool
is_idle idle = true
is_idle _ = false

-- `notify_fd` is readable, or a caller is on the way to write to it.
abbrev pub Coming : Thread → (ℕ → SenderPc) → Type 0
Coming th senders = (0 < th.notified) ⊎ ((i : ℕ) × (is_idle (senders i) ≡ false))

-- While the loop waits with work pending, it is woken.
abbrev Covered : LoopPc → Thread → (ℕ → SenderPc) → Type 0
Covered waiting th senders = pending th ≡ true → Coming th senders
Covered _ th senders = Unit

record Inv (s : System) : Type 0 where
  flag : s.thread.is_sleeping ≡ asleep s.pc
  covered : Covered s.pc s.thread s.senders

dequeue-is_sleeping : (th : Thread) → (dequeue th).1.is_sleeping ≡ th.is_sleeping
unfolding dequeue
dequeue-is_sleeping th = ground arith

after_delivery-asleep : (fast : Bool) → asleep (after_delivery fast) ≡ false
after_delivery-asleep true = refl
after_delivery-asleep false = refl

after_delivery-Covered :
    (th : Thread) (fast : Bool) (senders : ℕ → SenderPc) → Covered (after_delivery fast) th senders
after_delivery-Covered th true senders = tt
after_delivery-Covered th false senders = tt

LoopMove-flag :
    {cycles : ℕ} {th th' : Thread} {p p' : LoopPc}
    → LoopMove cycles th p p' th'
    → th.is_sleeping ≡ asleep p
    → th'.is_sleeping ≡ asleep p'
LoopMove-flag (LoopMove.stop_seen h) f = f
LoopMove-flag (LoopMove.go_on h) f = f
LoopMove-flag LoopMove.spin_over f = f
LoopMove-flag (LoopMove.spin_hit h) f = f
LoopMove-flag (LoopMove.spin_miss h) f = f
LoopMove-flag (LoopMove.take_work h) f = f
LoopMove-flag (LoopMove.no_work h) f = f
LoopMove-flag {th = th} (LoopMove.deliver_one h) f = dequeue-is_sleeping th ∙ f
LoopMove-flag (LoopMove.deliver_end {fast} h) f = f ∙ sym (after_delivery-asleep fast)
LoopMove-flag LoopMove.poll_notified f = f
LoopMove-flag LoopMove.poll_other f = f
LoopMove-flag LoopMove.fall f = refl
LoopMove-flag (LoopMove.back_off h) f = f
LoopMove-flag (LoopMove.sleep h) f = f
LoopMove-flag LoopMove.rise f = refl
LoopMove-flag (LoopMove.wake_notified h) f = f
LoopMove-flag LoopMove.wake_other f = f
LoopMove-flag LoopMove.awake f = refl
LoopMove-flag (LoopMove.handle_notified h) f = f
LoopMove-flag (LoopMove.handle_spurious h) f = f
LoopMove-flag LoopMove.handle_other f = f

-- The loop falls asleep only with nothing pending.
LoopMove-Covered :
    {cycles : ℕ} {th th' : Thread} {p p' : LoopPc} (senders : ℕ → SenderPc)
    → LoopMove cycles th p p' th'
    → Covered p' th' senders
LoopMove-Covered senders (LoopMove.sleep h) = λ e. absurd (cc)
LoopMove-Covered senders (LoopMove.stop_seen h) = tt
LoopMove-Covered senders (LoopMove.go_on h) = tt
LoopMove-Covered senders LoopMove.spin_over = tt
LoopMove-Covered senders (LoopMove.spin_hit h) = tt
LoopMove-Covered senders (LoopMove.spin_miss h) = tt
LoopMove-Covered senders (LoopMove.take_work h) = tt
LoopMove-Covered senders (LoopMove.no_work h) = tt
LoopMove-Covered senders (LoopMove.deliver_one h) = tt
LoopMove-Covered {th = th} senders (LoopMove.deliver_end {fast} h) =
    after_delivery-Covered th fast senders
LoopMove-Covered senders LoopMove.poll_notified = tt
LoopMove-Covered senders LoopMove.poll_other = tt
LoopMove-Covered senders LoopMove.fall = tt
LoopMove-Covered senders (LoopMove.back_off h) = tt
LoopMove-Covered senders LoopMove.rise = tt
LoopMove-Covered senders (LoopMove.wake_notified h) = tt
LoopMove-Covered senders LoopMove.wake_other = tt
LoopMove-Covered senders LoopMove.awake = tt
LoopMove-Covered senders (LoopMove.handle_notified h) = tt
LoopMove-Covered senders (LoopMove.handle_spurious h) = tt
LoopMove-Covered senders LoopMove.handle_other = tt

SenderMove-is_sleeping :
    {th th' : Thread} {p p' : SenderPc} → SenderMove th p p' th' → th'.is_sleeping ≡ th.is_sleeping
SenderMove-is_sleeping (SenderMove.full h) = refl
SenderMove-is_sleeping (SenderMove.enqueue buf h) = refl
SenderMove-is_sleeping (SenderMove.see_asleep h) = refl
SenderMove-is_sleeping (SenderMove.see_awake h) = refl
SenderMove-is_sleeping SenderMove.write = refl
SenderMove-is_sleeping SenderMove.stop = refl
SenderMove-is_sleeping SenderMove.change = refl

moved :
    (senders : ℕ → SenderPc) (i : ℕ) (p : SenderPc)
    → is_idle p ≡ false
    → is_idle (update senders i p i) ≡ false
moved senders i p e = rw (==_self i) e

-- A caller that stays idle is not the one that is on its way.
still :
    (th : Thread) (senders : ℕ → SenderPc) (i : ℕ)
    → senders i ≡ idle
    → Coming th senders
    → Coming th (update senders i idle)
still th senders i e (inl h) = inl h
still th senders i e (inr (j, b)) = elim (Bool-cases (i == j)) [
  | inl x ↦
      let same : i ≡ j = ground (arith, x) in
      absurd (cc (ap (λ k. is_idle (senders k)) same, ap is_idle e, b))
  | inr x ↦ inr (j, rw x b)
]

-- What a step of caller `i` leaves of the write that is coming, while the flag is set.
SenderMove-Coming :
    {th th' : Thread} {p p' : SenderPc} (senders : ℕ → SenderPc) (i : ℕ)
    → senders i ≡ p
    → th.is_sleeping ≡ true
    → SenderMove th p p' th'
    → (pending th ≡ true → Coming th senders)
    → pending th' ≡ true
    → Coming th' (update senders i p')
SenderMove-Coming {th = th} senders i at_i f (SenderMove.full h) c e = still th senders i at_i (c e)
SenderMove-Coming senders i at_i f (SenderMove.enqueue buf h) c e =
    inr (i, moved senders i sent refl)
SenderMove-Coming senders i at_i f (SenderMove.see_asleep h) c e =
    inr (i, moved senders i writing refl)
SenderMove-Coming senders i at_i f (SenderMove.see_awake h) c e = absurd (cc)
SenderMove-Coming senders i at_i f SenderMove.write c e = inl (omega arith)
SenderMove-Coming senders i at_i f SenderMove.stop c e = inr (i, moved senders i writing refl)
SenderMove-Coming senders i at_i f SenderMove.change c e = inr (i, moved senders i writing refl)

SenderMove-Covered :
    {th th' : Thread} {p' : SenderPc} (pc : LoopPc) (senders : ℕ → SenderPc) (i : ℕ)
    → th.is_sleeping ≡ asleep pc
    → SenderMove th (senders i) p' th'
    → Covered pc th senders
    → Covered pc th' (update senders i p')
SenderMove-Covered waiting senders i f mv c = SenderMove-Coming senders i refl f mv c
SenderMove-Covered top senders i f mv c = tt
SenderMove-Covered (spin left) senders i f mv c = tt
SenderMove-Covered (choose spun) senders i f mv c = tt
SenderMove-Covered (deliver fast) senders i f mv c = tt
SenderMove-Covered poll senders i f mv c = tt
SenderMove-Covered falling senders i f mv c = tt
SenderMove-Covered checking senders i f mv c = tt
SenderMove-Covered backing senders i f mv c = tt
SenderMove-Covered (woken ready) senders i f mv c = tt
SenderMove-Covered (handling ready) senders i f mv c = tt
SenderMove-Covered done senders i f mv c = tt

Step-Inv : {cycles : ℕ} {s t : System} → Step cycles s t → Inv s → Inv t
Step-Inv {s = s} (loop_step mv) v = record {
  flag = LoopMove-flag mv v.flag;
  covered = LoopMove-Covered s.senders mv;
}
Step-Inv {s = s} (sender_step i mv) v = record {
  flag = SenderMove-is_sleeping mv ∙ v.flag;
  covered = SenderMove-Covered s.pc s.senders i v.flag mv v.covered;
}

Reach-Inv :
    {cycles : ℕ} {th : Thread} {s : System} → th.is_sleeping ≡ false → Reach cycles th s → Inv s
Reach-Inv f begin = record { flag = f; covered = tt }
Reach-Inv f (next r st) = Step-Inv st (Reach-Inv f r)

Covered-waiting :
    (p : LoopPc) (th : Thread) (senders : ℕ → SenderPc)
    → p ≡ waiting
    → Covered p th senders
    → pending th ≡ true
    → Coming th senders
Covered-waiting p th senders e c = subst (λ q. Covered q th senders) e c

-- In every state that a loop which starts awake can reach beside any number of callers, if the loop
-- waits in epoll_wait while a message is in the queue or a stop is requested, then the flag
-- is_sleeping is set, and notify_fd is readable or a caller is on its way to the write; if all
-- callers are through, notify_fd is readable.
pub no_lost_wakeup :
    {cycles : ℕ} {th : Thread} {s : System}
    → th.is_sleeping ≡ false
    → Reach cycles th s
    → s.pc ≡ waiting
    → pending s.thread ≡ true
    → (s.thread.is_sleeping ≡ true)
      × Coming s.thread s.senders
      × (((i : ℕ) → is_idle (s.senders i) ≡ true) → 0 < s.thread.notified)
no_lost_wakeup {s = s} f r e w =
    let v = Reach-Inv f r in
    let c = Covered-waiting s.pc s.thread s.senders e v.covered w in
    (v.flag ∙ ap asleep e, c, λ quiet. elim c [ inl h ↦ h | inr (i, b) ↦ absurd (cc (quiet i, b)) ])
