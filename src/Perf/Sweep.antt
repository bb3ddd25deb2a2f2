-- ===== src/Perf/Sweep.antt =====
-- src/components/perf, remote_ping.c and remote_pong.c: the course of a sweep.
use codex_nos.Base.{
  ℕ, zero, suc, ◌+◌, ◌*◌, ◌^◌, ◌≤◌, ◌<◌, ◌≡◌, refl, ap, ◌∙◌, Bool, true, false, List, [], ◌∷◌, ◌++◌,
  get_or, ltb, add32, arith,
}
use codex_nos.Perf.{Msg, RPingCtx, reply_msg, next_test, on_pong, remote_ping, remote_pong}
use codex_nos.Perf.Exchange.{noted, deliver, run}

-- The ping component in a test of `n` pings of `size` bytes, after `j` pongs, and the place in a
-- sweep: the size number `i` of `count`.
abbrev pub testing : (n j size count i : ℕ) → List ℕ → RPingCtx
testing n j size count i sizes = record {
  target_count = n;
  current_count = j;
  payload_size = size;
  sweep_count = count;
  sweep_index = i;
  sweep_sizes = sizes;
}

abbrev pub ping_of : ℕ → ℕ → Msg
ping_of seq size = record {
  dst_service = 114;
  msg_code = 2001;
  seq = seq;
  payload_len = size;
  words = [];
}

-- `r` pings of `size` bytes, from the number after `j` on, each with its answer.
abbrev pub pairs : ℕ → ℕ → ℕ → List Msg
pairs size j zero = []
pairs size j (suc r) =
    ping_of (suc j) size ∷ reply_msg (ping_of (suc j) size) ∷ pairs size (suc j) r

-- The tests of `n` pings for `k` sizes from the size number `i` on.
abbrev pub tests : ℕ → List ℕ → ℕ → ℕ → List Msg
tests n sizes i zero = []
tests n sizes i (suc k) = pairs (get_or sizes i 0) 0 n ++ tests n sizes (suc i) k

abbrev pub twice : ℕ → ℕ → ℕ
twice zero f = f
twice (suc r) f = suc (suc (twice r f))

abbrev pub rounds : ℕ → ℕ → ℕ → ℕ
rounds n zero f = f
rounds n (suc k) f = twice n (rounds n k f)

pub twice-eq : (r f : ℕ) → twice r f ≡ 2 * r + f
twice-eq zero f = omega arith
twice-eq (suc r) f = omega (arith, twice-eq r f)

module _ (room : ℕ → Bool) (all : (size : ℕ) → size ≤ 4096 → room size ≡ true) where
  pub run-cons :
      (f : ℕ) (m : Msg) (c c' : RPingCtx) (out : List Msg)
      → deliver room m c ≡ (c', out)
      → run room (suc f) c (m ∷ []) ≡ noted (m ∷ []) (run room f c' out)
  unfolding run
  run-cons f m c c' out e = ap (λ r. noted (m ∷ []) (run room f r.0 r.1)) e

  deliver-ping :
      (seq size : ℕ) (c : RPingCtx)
      → size ≤ 4096
      → deliver room (ping_of seq size) c ≡ (c, reply_msg (ping_of seq size) ∷ [])
  unfolding deliver remote_pong
  deliver-ping seq size c b = rw (all size b) refl

  deliver-reply :
      (seq size : ℕ) (c : RPingCtx) → deliver room (reply_msg (ping_of seq size)) c ≡ on_pong room c
  unfolding deliver remote_ping
  deliver-reply seq size c = refl

  run-pair :
      (f seq size : ℕ) (c c' : RPingCtx) (out : List Msg)
      → size ≤ 4096
      → on_pong room c ≡ (c', out)
      → run room (suc (suc f)) c (ping_of seq size ∷ [])
        ≡ noted (ping_of seq size ∷ reply_msg (ping_of seq size) ∷ []) (run room f c' out)
  run-pair f seq size c c' out b e =
      run-cons (suc f) (ping_of seq size) c c (reply_msg (ping_of seq size) ∷ [])
        (deliver-ping seq size c b)
      ∙ ap (noted (ping_of seq size ∷ []))
          (run-cons f (reply_msg (ping_of seq size)) c c' out (deliver-reply seq size c ∙ e))

  on_pong-more :
      (n j size count i : ℕ) (sizes : List ℕ)
      → size ≤ 4096
      → suc (suc j) ≤ n
      → n < 2 ^ 32
      → on_pong room (testing n j size count i sizes)
        ≡ (testing n (suc j) size count i sizes, ping_of (suc (suc j)) size ∷ [])
  on_pong-more n j size count i sizes b h w =
      let e : add32 j 1 ≡ suc j = omega arith in
      let e' : add32 (suc j) 1 ≡ suc (suc j) = omega arith in
      let x : ltb (suc j) n ≡ true = ground arith in rw (e, x, all size b, e') refl

  on_pong-last :
      (j size count i : ℕ) (sizes : List ℕ)
      → suc j < 2 ^ 32
      → on_pong room (testing (suc j) j size count i sizes)
        ≡ next_test room (testing (suc j) (suc j) size count i sizes)
  on_pong-last j size count i sizes w =
      let e : add32 j 1 ≡ suc j = omega arith in
      let x : ltb (suc j) (suc j) ≡ false = ground arith in rw (e, x) refl

  next_test-more :
      (n count i size : ℕ) (sizes : List ℕ)
      → get_or sizes (suc i) 0 ≤ 4096
      → suc (suc i) ≤ count
      → count < 2 ^ 32
      → next_test room (testing n n size count i sizes) ≡ (
        testing n 0 (get_or sizes (suc i) 0) count (suc i) sizes,
        ping_of 1 (get_or sizes (suc i) 0) ∷ [],
      )
  next_test-more n count i size sizes b h w =
      let e : add32 i 1 ≡ suc i = omega arith in
      let x : ltb 0 count ≡ true = ground arith in
      let y : ltb (suc i) count ≡ true = ground arith in
      rw (e, x, y, all (get_or sizes (suc i) 0) b) refl

  next_test-last :
      (n i size : ℕ) (sizes : List ℕ)
      → suc i < 2 ^ 32
      → next_test room (testing n n size (suc i) i sizes) ≡ (testing n n size 0 0 sizes, [])
  next_test-last n i size sizes w =
      let e : add32 i 1 ≡ suc i = omega arith in
      let x : ltb 0 (suc i) ≡ true = ground arith in
      let y : ltb (suc i) (suc i) ≡ false = ground arith in rw (e, x, y) refl

  -- A test of `n` pings, up to what comes after its last pong.
  run-test :
      (r j n size count i : ℕ) (sizes : List ℕ) (f : ℕ) (c' : RPingCtx) (out : List Msg)
      → size ≤ 4096
      → suc j + r ≡ n
      → n < 2 ^ 32
      → next_test room (testing n n size count i sizes) ≡ (c', out)
      → run room (twice (suc r) f) (testing n j size count i sizes) (ping_of (suc j) size ∷ [])
        ≡ noted (pairs size j (suc r)) (run room f c' out)
  run-test zero j n size count i sizes f c' out b h w e =
      let same : n ≡ suc j = omega arith in
      run-pair f (suc j) size (testing n j size count i sizes) c' out b
        (rw same (on_pong-last j size count i sizes (omega arith)) ∙ e)
  run-test (suc r) j n size count i sizes f c' out b h w e =
      run-pair (twice (suc r) f) (suc j) size (testing n j size count i sizes)
        (testing n (suc j) size count i sizes) (ping_of (suc (suc j)) size ∷ []) b
        (on_pong-more n j size count i sizes b (omega arith) w)
      ∙ ap (noted (ping_of (suc j) size ∷ reply_msg (ping_of (suc j) size) ∷ []))
          (run-test r (suc j) n size count i sizes f c' out b (omega arith) w e)

  run-end : (f : ℕ) (c : RPingCtx) → run room f c [] ≡ record { ctx = c; left = []; delivered = [] }
  unfolding run
  run-end zero c = refl
  run-end (suc f) c = refl

  -- The tests of a sweep from the size number `i` on, up to the size number `last`.
  pub run-tests :
      (k i r last : ℕ) (sizes : List ℕ) (f : ℕ)
      → ((m : ℕ) → get_or sizes m 0 ≤ 4096)
      → i + k ≡ last
      → suc last < 2 ^ 32
      → suc r < 2 ^ 32
      → run room
          (rounds (suc r) (suc k) f)
          (testing (suc r) 0 (get_or sizes i 0) (suc last) i sizes)
          (ping_of 1 (get_or sizes i 0) ∷ [])
        ≡ record {
          ctx = testing (suc r) (suc r) (get_or sizes last 0) 0 0 sizes;
          left = [];
          delivered = tests (suc r) sizes i (suc k);
        }
  run-tests zero i r last sizes f b h v w =
      let same : last ≡ i = omega arith in
      let size : ℕ = get_or sizes i 0 in
      let final : RPingCtx = testing (suc r) (suc r) size 0 0 sizes in
      rw same (
        run-test r 0 (suc r) size (suc i) i sizes f final [] (b i) (omega arith) w
          (next_test-last (suc r) i size sizes (omega arith))
        ∙ ap (noted (pairs size 0 (suc r))) (run-end f final))
  run-tests (suc k) i r last sizes f b h v w =
      let size : ℕ = get_or sizes i 0 in
      let next : ℕ = get_or sizes (suc i) 0 in
      run-test r 0 (suc r) size (suc last) i sizes (rounds (suc r) (suc k) f)
        (testing (suc r) 0 next (suc last) (suc i) sizes) (ping_of 1 next ∷ []) (b i) (omega arith)
        w (next_test-more (suc r) (suc last) i size sizes (b (suc i)) (omega arith) v)
      ∙ ap (noted (pairs size 0 (suc r))) (run-tests k (suc i) r last sizes f b (omega arith) v w)
