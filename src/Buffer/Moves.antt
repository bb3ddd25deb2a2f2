-- ===== src/Buffer/Moves.antt =====
-- Taking a buffer from a bin, giving one back, and counting references keep the bin's invariant.
use codex_nos.Base.{
  ℕ, ◌+◌, ◌-◌, ◌≤◌, ◌<◌, ◌≡◌, get_or, set, length-set, get_or-set, arith, ◌==◌, if◌then◌else◌,
}
use codex_nos.Buffer.{
  Buffer, Bin, null_buffer, buffer_at, top_index, taken, wiped, take_buffer, give_buffer,
  set_buffer,
}
use codex_nos.Buffer.Bins.{IsBin, IsPlaced, live, live_count, live_count-set, live_count_pos}

taken-IsPlaced :
    {i n : ℕ} (b : Bin) (buf : Buffer) (size head : ℕ)
    → IsPlaced i b n buf
    → size + head ≤ b.chunk_size
    → IsPlaced i b n (taken size head buf)
taken-IsPlaced b buf size head p h = ground arith

wiped-IsPlaced :
    {i n : ℕ} (b : Bin) (buf : Buffer) → IsPlaced i b n buf → IsPlaced i b n (wiped buf)
wiped-IsPlaced b buf p = ground arith

module _ {i : ℕ} (b : Bin) (v : IsBin i b) where
  module _ (n : ℕ) (hn : n < b.chunk_count) (w : Buffer) where
    read_back :
        (m : ℕ) → get_or (set b.buffers n w) m null_buffer ≡ (if n == m then w else buffer_at b m)
    read_back m = get_or-set b.buffers n m w null_buffer (omega (arith, v.buffers_len))

    lives_after : live_count (set b.buffers n w) + live (buffer_at b n) ≡ b.used_count + live w
    lives_after =
        omega (arith, live_count-set b.buffers n w (omega (arith, v.buffers_len)), v.lives)

    used_pos : 0 < (buffer_at b n).ref_cnt → 0 < b.used_count
    used_pos h = omega (arith, live_count_pos b.buffers n (omega (arith, v.buffers_len)) h, v.lives)

  -- A change of a buffer in use that keeps it in use and in place.
  pub set_buffer-IsBin :
      (n : ℕ) (f : Buffer → Buffer)
      → n < b.chunk_count
      → 0 < (buffer_at b n).ref_cnt
      → 0 < (f (buffer_at b n)).ref_cnt
      → IsPlaced i b n (f (buffer_at b n))
      → IsBin i (set_buffer n f b)
  unfolding set_buffer
  set_buffer-IsBin n f hn l l' place =
      let w = f (buffer_at b n) in
      let at = read_back n hn w in
      record {
        buffers_len = omega (arith, length-set b.buffers n w, v.buffers_len);
        stack_len = v.stack_len;
        small = v.small;
        counts = v.counts;
        lives = ground (arith, lives_after n hn w);
        peak = v.peak;
        stack_in = v.stack_in;
        stack_free = λ k h. ground (arith, at (get_or b.free_stack k 0), v.stack_free k h);
        distinct = v.distinct;
        placed = λ m h. ground (arith, at m, v.placed m h);
      }

  pub take_buffer-IsBin :
      (size head : ℕ)
      → 0 < b.free_len
      → size + head ≤ b.chunk_size
      → IsBin i (take_buffer size head b).1
  unfolding take_buffer
  take_buffer-IsBin size head free fit =
      let n = top_index b in
      let hn : n < b.chunk_count = v.stack_in (b.free_len - 1) (omega arith) in
      let zero_ref = v.stack_free (b.free_len - 1) (omega arith) in
      let w = taken size head (buffer_at b n) in
      let at = read_back n hn w in
      let place = taken-IsPlaced b (buffer_at b n) size head (v.placed n hn) fit in
      record {
        buffers_len = omega (arith, length-set b.buffers n w, v.buffers_len);
        stack_len = v.stack_len;
        small = v.small;
        counts = omega (arith, v.counts, v.small);
        lives = ground (arith, lives_after n hn w, v.counts, v.small);
        peak = ground (arith, v.peak, v.counts, v.small);
        stack_in = λ k h. v.stack_in k (omega arith);
        stack_free = λ k h. ground (
          arith,
          at (get_or b.free_stack k 0),
          v.stack_free k (omega arith),
          v.distinct k (b.free_len - 1) (omega arith) (omega arith),
        );
        distinct = λ j k h h'. v.distinct j k h (omega arith);
        placed = λ m h. ground (arith, at m, v.placed m h);
      }

  pub give_buffer-IsBin :
      (n : ℕ) → n < b.chunk_count → 0 < (buffer_at b n).ref_cnt → IsBin i (give_buffer n b)
  unfolding give_buffer
  give_buffer-IsBin n hn l =
      let w = wiped (buffer_at b n) in
      let at = read_back n hn w in
      let pos : 0 < b.used_count = used_pos n hn w l in
      let idx : (buffer_at b n).pool_idx ≡ n = (v.placed n hn).place in
      let on = λ (k : ℕ).
        get_or-set b.free_stack b.free_len k (buffer_at b n).pool_idx 0
          (omega (arith, v.stack_len, v.counts)) in
      let place = wiped-IsPlaced b (buffer_at b n) (v.placed n hn) in
      record {
        buffers_len = omega (arith, length-set b.buffers n w, v.buffers_len);
        stack_len =
            omega (arith, length-set b.free_stack b.free_len (buffer_at b n).pool_idx, v.stack_len);
        small = v.small;
        counts = omega (arith, v.counts, v.small);
        lives = ground (arith, lives_after n hn w, v.counts, v.small);
        peak = omega (arith, v.peak, v.counts, v.small);
        stack_in = λ k h. ground (arith, on k, v.stack_in k);
        stack_free =
            λ k h. ground (arith, on k, at (get_or b.free_stack k 0), at n, v.stack_free k);
        distinct = λ j k h h'.
            ground (arith, on j, on k, v.distinct j k h, v.stack_free j, v.stack_free k);
        placed = λ m h. ground (arith, at m, v.placed m h);
      }
