-- ===== src/Buffer/Headroom.antt =====
-- `nos_buffer_push` and `nos_buffer_pull` on a well-framed buffer.
use codex_nos.Base.{ℕ, ◌+◌, ◌-◌, ◌≤◌, ◌<◌, ◌≡◌, none, some, u32_mod, arith, ltb, if◌then◌else◌}
use codex_nos.Buffer.{Buffer, push, pull}

-- Headroom, data and tailroom make up the chunk, and `data` points behind the headroom.
pub record IsFramed (b : Buffer) : Type 0 where
  pub data_at : b.data_off ≡ b.headroom
  pub parts : b.headroom + b.len + b.tailroom ≡ b.capacity
  pub small : b.capacity < u32_mod

-- On a well-framed buffer a push and a pull return NULL exactly when the room or the data does not
-- suffice, move the data by the size otherwise, and keep the buffer well framed.
pub push-pull_framed :
    (b : Buffer) (size : ℕ)
    → IsFramed b
    → IsFramed (push b size).1
      × IsFramed (pull b size).1
      × ((push b size).0 ≡ (if ltb b.headroom size then none else some (b.headroom - size)))
      × ((pull b size).0 ≡ (if ltb b.len size then none else some (b.headroom + size)))
unfolding push pull
push-pull_framed b size v = (
  record { data_at = ground arith; parts = ground arith; small = ground arith },
  record { data_at = ground arith; parts = ground arith; small = ground arith },
  ground arith,
  ground arith,
)

-- Pulling what was pushed gives a well-framed buffer back.
pub pull-push :
    (b : Buffer) (size : ℕ) → IsFramed b → size ≤ b.headroom → (pull (push b size).1 size).1 ≡ b
unfolding push pull
pull-push b size v h = ground arith

-- Pushing what was pulled gives a well-framed buffer back.
pub push-pull :
    (b : Buffer) (size : ℕ) → IsFramed b → size ≤ b.len → (push (pull b size).1 size).1 ≡ b
unfolding push pull
push-pull b size v h = ground arith
