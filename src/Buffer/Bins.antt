-- ===== src/Buffer/Bins.antt =====
-- One bin: its invariant, and that taking a buffer and giving it back keep it.
use codex_nos.Base.{
  ℕ, zero, suc, ◌+◌, ◌≤◌, ◌<◌, ◌≡◌, ◌≢◌, refl, ap, List, [], ◌∷◌, length, get_or, set, mul32,
  u32_mod, arith, ltb, if◌then◌else◌,
}
use codex_nos.Buffer.{Buffer, Bin, null_buffer, buffer_at, init_buffers, init_stack, init_bin}
use codex_nos.Buffer.Headroom.{IsFramed}

-- The buffers in use.
abbrev pub live : Buffer → ℕ
live b = if ltb 0 b.ref_cnt then 1 else 0

abbrev pub live_count : List Buffer → ℕ
live_count [] = 0
live_count (b ∷ bs) = live b + live_count bs

-- A buffer at its place in bin `i`.
pub record IsPlaced (i : ℕ) (b : Bin) (n : ℕ) (buf : Buffer) : Type 0 where
  pub bin : buf.bin_idx ≡ i
  pub place : buf.pool_idx ≡ n
  pub raw : buf.raw_off ≡ mul32 n b.chunk_size
  pub size : buf.capacity ≡ b.chunk_size
  pub framed : IsFramed buf

-- Bin `i` of the pool: the free stack holds distinct free buffers, and the counts agree.
pub record IsBin (i : ℕ) (b : Bin) : Type 0 where
  pub buffers_len : length b.buffers ≡ b.chunk_count
  pub stack_len : length b.free_stack ≡ b.chunk_count
  pub small : b.chunk_count < u32_mod
  pub counts : b.used_count + b.free_len ≡ b.chunk_count
  pub lives : live_count b.buffers ≡ b.used_count
  pub peak : (b.used_count ≤ b.peak_count) × (b.peak_count ≤ b.chunk_count)
  pub stack_in : (k : ℕ) → k < b.free_len → get_or b.free_stack k 0 < b.chunk_count
  pub stack_free : (k : ℕ) → k < b.free_len → (buffer_at b (get_or b.free_stack k 0)).ref_cnt ≡ 0
  pub distinct :
      (j k : ℕ) → j < k → k < b.free_len → get_or b.free_stack j 0 ≢ get_or b.free_stack k 0
  pub placed : (n : ℕ) → n < b.chunk_count → IsPlaced i b n (buffer_at b n)

pub live_count-set :
    (bs : List Buffer) (n : ℕ) (v : Buffer)
    → n < length bs
    → live_count (set bs n v) + live (get_or bs n null_buffer) ≡ live_count bs + live v
live_count-set [] n v h = absurd (omega arith)
live_count-set (b ∷ bs) zero v h = ground arith
live_count-set (b ∷ bs) (suc n) v h = ground (arith, live_count-set bs n v)

pub live_count_pos :
    (bs : List Buffer) (n : ℕ)
    → n < length bs
    → 0 < (get_or bs n null_buffer).ref_cnt
    → 0 < live_count bs
live_count_pos [] n h p = absurd (omega arith)
live_count_pos (b ∷ bs) zero h p = ground arith
live_count_pos (b ∷ bs) (suc n) h p = ground (arith, live_count_pos bs n)

-- A fresh bin.
length-init_buffers : (i size j n : ℕ) → length (init_buffers i size j n) ≡ n
unfolding init_buffers
length-init_buffers i size j zero = refl
length-init_buffers i size j (suc n) = ap suc (length-init_buffers i size (j + 1) n)

length-init_stack : (j n : ℕ) → length (init_stack j n) ≡ n
unfolding init_stack
length-init_stack j zero = refl
length-init_stack j (suc n) = ap suc (length-init_stack (j + 1) n)

live_count-init_buffers : (i size j n : ℕ) → live_count (init_buffers i size j n) ≡ 0
unfolding init_buffers
live_count-init_buffers i size j zero = refl
live_count-init_buffers i size j (suc n) = omega (arith, live_count-init_buffers i size (j + 1) n)

get_or-init_stack : (j n k : ℕ) → k < n → get_or (init_stack j n) k 0 ≡ j + k
unfolding init_stack
get_or-init_stack j zero k h = absurd (omega arith)
get_or-init_stack j (suc n) zero h = omega arith
get_or-init_stack j (suc n) (suc k) h = omega (arith, get_or-init_stack (j + 1) n k (omega arith))

-- The buffer that the initialisation loop writes at index `k`.
record IsFresh (i size k : ℕ) (b : Buffer) : Type 0 where
  bin : b.bin_idx ≡ i
  place : b.pool_idx ≡ k
  raw : b.raw_off ≡ mul32 k size
  cap : b.capacity ≡ size
  tail : b.tailroom ≡ size
  zeros : (b.data_off ≡ 0) × (b.headroom ≡ 0) × (b.len ≡ 0) × (b.ref_cnt ≡ 0)

init_buffers-IsFresh :
    (i size j n k : ℕ)
    → k < n
    → IsFresh i size (j + k) (get_or (init_buffers i size j n) k null_buffer)
unfolding init_buffers
init_buffers-IsFresh i size j zero k h = absurd (omega arith)
init_buffers-IsFresh i size j (suc n) zero h = ground arith
init_buffers-IsFresh i size j (suc n) (suc k) h =
    let e : j + 1 + k ≡ j + suc k = omega arith in
    rw e at (init_buffers-IsFresh i size (j + 1) n k (omega arith))

pub init_bin-IsBin :
    (i size count : ℕ) → size < u32_mod → count < u32_mod → IsBin i (init_bin i size count)
unfolding init_bin
init_bin-IsBin i size count hs hc = record {
  buffers_len = length-init_buffers i size 0 count;
  stack_len = length-init_stack 0 count;
  small = hc;
  counts = omega arith;
  lives = live_count-init_buffers i size 0 count;
  peak = omega arith;
  stack_in = λ k h. ground (arith, get_or-init_stack 0 count k);
  stack_free = λ k h.
      let e : get_or (init_stack 0 count) k 0 ≡ k = omega (arith, get_or-init_stack 0 count k h) in
      rw e (ground (arith, init_buffers-IsFresh i size 0 count k h));
  distinct = λ j k h h'. ground (arith, get_or-init_stack 0 count k, get_or-init_stack 0 count j);
  placed = λ n h. ground (arith, init_buffers-IsFresh i size 0 count n h);
}
