-- ===== src/Ipc/Backoff.antt =====
-- The retry delays of a connection, and the states it can be in.
use codex_nos.Base.{
  CString, ℕ, zero, suc, ◌*◌, ◌^◌, ◌≤◌, ◌≡◌, refl, ap, ◌∙◌, Bool, true, false, Option, none, some,
  leb, ltb, if◌then◌else◌, add64, inl, inr, Bool-cases, arith, ◌&&◌,
}
use native.Mathlib.Nat.{pow-zero, two-pow-succ}
use codex_nos.Shm.{Channel, Region}
use codex_nos.Ipc.{
  Conn, Net, mark_connect_failed, mark_disconnected, try_connect, is_connected_state, is_backoff,
}
use codex_nos.Ipc.Send.{live}

-- `n` connects in a row that fail, at the times `now`.
abbrev pub failures : (ℕ → ℕ) → ℕ → Conn → Conn
failures now zero c = c
failures now (suc n) c = mark_connect_failed (now n) (failures now n c)

abbrev pub capped : ℕ → ℕ
capped d = if leb 5000 d then 5000 else d

double-capped :
    (now d : ℕ) (c : Conn)
    → 100 ≤ d
    → c.retry_delay_ms ≡ capped d
    → (mark_connect_failed now c).retry_delay_ms ≡ capped (2 * d)
unfolding mark_connect_failed
double-capped now d c h e = ground (arith, e)

pow_ge : (n : ℕ) → 100 ≤ 100 * 2 ^ n
pow_ge zero = omega (arith, pow-zero 2)
pow_ge (suc n) = omega (arith, two-pow-succ n, pow_ge n)

-- After `n` connects in a row that fail, from a fresh delay, the next delay is 100 ms doubled `n`
-- times, but at most 5 s; and the failure after those waits that long from its own time on, in the
-- backoff state.
pub failures-delay :
    (now : ℕ → ℕ) (n : ℕ) (c : Conn)
    → c.retry_delay_ms ≡ 100
    → ((failures now n c).retry_delay_ms ≡ capped (100 * 2 ^ n))
      × ((failures now (suc n) c).next_retry_ms ≡ add64 (now n) (capped (100 * 2 ^ n)))
      × (is_backoff (failures now (suc n) c).state ≡ true)
unfolding mark_connect_failed
failures-delay now n c fresh =
    (delay n, ap (add64 (now n)) (ground (arith, delay n, pow_ge n)), refl)
  where
    twice : (n : ℕ) → 2 * (100 * 2 ^ n) ≡ 100 * 2 ^ suc n
    twice n = omega (arith, two-pow-succ n)

    delay : (n : ℕ) → (failures now n c).retry_delay_ms ≡ capped (100 * 2 ^ n)
    delay zero = fresh
    delay (suc n) =
        double-capped (now n) (100 * 2 ^ n) (failures now n c) (pow_ge n) (delay n)
        ∙ ap capped (twice n)

abbrev pub has_fd : Conn → Bool
has_fd c = elim c.fd [ none ↦ false | some fd ↦ true ]

-- The three marks of a connection that is up agree: the flag, the state and the descriptor.
pub record IsCoherent (c : Conn) : Type 0 where
  pub flag : c.is_connected ≡ is_connected_state c.state
  pub open_fd : has_fd c ≡ is_connected_state c.state

pub mark_disconnected-IsCoherent : (c : Conn) (net : Net) → IsCoherent (mark_disconnected c net).0
unfolding mark_disconnected
mark_disconnected-IsCoherent c net = record { flag = refl; open_fd = refl }

pub mark_connect_failed-IsCoherent :
    (now : ℕ) (c : Conn) → has_fd c ≡ false → IsCoherent (mark_connect_failed now c)
unfolding mark_connect_failed
mark_connect_failed-IsCoherent now c e = record { flag = refl; open_fd = e }

dead : (now : ℕ) (c : Conn) → live (mark_connect_failed now c) ≡ false
unfolding mark_connect_failed
dead now c = refl

abbrev is_some : Option ℕ → Bool
is_some none = false
is_some (some fd) = true

-- A connect on a connection that is down and whose marks agree keeps them in agreement, does nothing
-- before the retry time of a backoff, and else brings the connection up exactly when the socket
-- connects.
pub try_connect_correct :
    (conn_id now : ℕ) (socket : Option ℕ) (local : Option CString) (shm : Option (Channel × Region))
    (c : Conn) (net : Net)
    → IsCoherent c
    → is_connected_state c.state ≡ false
    → IsCoherent (try_connect conn_id now socket local shm c net).1
      × (if is_backoff c.state && ltb now c.next_retry_ms
          then try_connect conn_id now socket local shm c net ≡ (false, c, net)
          else live (try_connect conn_id now socket local shm c net).1 ≡ is_some socket)
unfolding try_connect
try_connect_correct conn_id now none local shm c net h down =
    let closed : has_fd c ≡ false = h.open_fd ∙ down in
    elim (Bool-cases (is_backoff c.state && ltb now c.next_retry_ms)) [
      | inl e ↦ rw (try_connect, e) (record { flag = h.flag; open_fd = h.open_fd }, refl)
      | inr e ↦
          let m = mark_connect_failed-IsCoherent now c closed in rw (try_connect, e) (m, dead now c)
    ]
try_connect_correct conn_id now (some fd) local shm c net h down =
    elim (Bool-cases (is_backoff c.state && ltb now c.next_retry_ms)) [
      | inl e ↦ rw (try_connect, e) (record { flag = h.flag; open_fd = h.open_fd }, refl)
      | inr e ↦ rw (try_connect, e) (record { flag = refl; open_fd = refl }, refl)
    ]
