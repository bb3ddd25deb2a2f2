-- ===== src/Buffer/Release.antt =====
-- `nos_buffer_retain` and `nos_buffer_release` on the whole pool.
use codex_nos.Base.{
  ℕ, zero, suc, ◌+◌, ◌-◌, ◌<◌, ◌≡◌, ◌≢◌, inl, inr, refl, ap, Option, none, some, List, [], ◌∷◌,
  get_elem?, set, get_elem?-set_self, get_elem?-set_ne, get_or_of_get_elem?, lt_of_get_elem?, add32,
  sub32, u32_mod, arith, ◌==◌, ◌&&◌, if◌then◌else◌, Bool-cases, ◌∙◌,
}
use codex_nos.Reply.{ctx_release}
use codex_nos.Buffer.{
  Buffer, Bin, Pool, null_buffer, buffer_at, wiped, give_buffer, set_buffer, modify_bin, retain,
  release, lookup_buffer,
}
use codex_nos.Buffer.Bins.{IsBin, IsPlaced}
use codex_nos.Buffer.Moves.{set_buffer-IsBin, give_buffer-IsBin}
use codex_nos.Buffer.Pools.{IsPool, AreBins-get, AreBins-set}

modify_bin-eq-set :
    (i : ℕ) (f : Bin → Bin) (bs : List Bin) (b : Bin)
    → get_elem? bs i ≡ some b
    → modify_bin i f bs ≡ set bs i (f b)
unfolding modify_bin
modify_bin-eq-set i f [] b h = refl
modify_bin-eq-set zero f (c ∷ bs) b h = ground arith
modify_bin-eq-set (suc i) f (c ∷ bs) b h = ap (◌∷◌ c) (modify_bin-eq-set i f bs b h)

module _ (p : Pool) (i n : ℕ) (buf : Buffer) (v : IsPool p)
    (found : lookup_buffer p (i, n) ≡ some buf) where
  -- The bin of a buffer pointer, and the buffer's place in it.
  record Home : Type 0 where
    bin : Bin
    at : get_elem? p.bins i ≡ some bin
    is_bin : IsBin i bin
    slot : get_elem? bin.buffers n ≡ some buf
    is_buf : buffer_at bin n ≡ buf
    inside : n < bin.chunk_count
    placed : IsPlaced i bin n (buffer_at bin n)

  home_in : (o : Option Bin) → get_elem? p.bins i ≡ o → lookup_buffer p (i, n) ≡ some buf → Home
  unfolding lookup_buffer
  home_in none e f = absurd (let g = rw (e, lookup_buffer) at f in cc)
  home_in (some bin) e f =
      let slot : get_elem? bin.buffers n ≡ some buf = rw (e, lookup_buffer) at f in
      let is_bin : IsBin (0 + i) bin = AreBins-get 0 i p.bins v e in
      let zero_i : 0 + i ≡ i = omega arith in
      let is_bin' : IsBin i bin = rw zero_i at is_bin in
      let inside : n < bin.chunk_count =
        omega (arith, lt_of_get_elem? bin.buffers n slot, is_bin'.buffers_len) in
      record {
        bin = bin;
        at = e;
        is_bin = is_bin';
        slot = slot;
        is_buf = get_or_of_get_elem? bin.buffers n null_buffer slot;
        inside = inside;
        placed = is_bin'.placed n inside;
      }

  home : Home
  home = home_in (get_elem? p.bins i) refl found

  -- In `p'` the pointer leads to `w`, and every other pointer to what it led to in `p`.
  abbrev pub Changed : Buffer → Pool → Type 0
  Changed w p' =
      (j m : ℕ)
      → lookup_buffer p' (j, m) ≡ (if j == i && m == n then some w else lookup_buffer p (j, m))

  -- A rewrite of the bin that replaces the one buffer.
  Changed-by :
      (h : Home) (f : Bin → Bin) (w : Buffer) (p' : Pool)
      → (f h.bin).buffers ≡ set h.bin.buffers n w
      → p'.bins ≡ modify_bin i f p.bins
      → IsBin i (f h.bin)
      → IsPool p' × Changed w p'
  unfolding lookup_buffer
  Changed-by h f w p' e e' ok_bin =
      let eq : p'.bins ≡ set p.bins i (f h.bin) = e' ∙ modify_bin-eq-set i f p.bins h.bin h.at in
      let here : get_elem? p'.bins i ≡ some (f h.bin) =
        rw eq (get_elem?-set_self p.bins i (f h.bin) (lt_of_get_elem? p.bins i h.at)) in
      let zero_i : 0 + i ≡ i = omega arith in
      let there = λ (j : ℕ) (ne : i ≢ j). get_elem?-set_ne p.bins i j (f h.bin) ne in
      (
        rw eq (AreBins-set 0 i p.bins (f h.bin) v (rw zero_i ok_bin)),
        λ j m. elim (Bool-cases (j == i)) [
          | inl same ↦
              let e_j : j ≡ i = ground arith in
              rw e_j (
                ground (
                  arith,
                  h.at,
                  here,
                  e,
                  get_elem?-set_self h.bin.buffers n w (lt_of_get_elem? h.bin.buffers n h.slot),
                  get_elem?-set_ne h.bin.buffers n m w,
                ))
          | inr other ↦ ground (arith, eq, there j)
        ],
      )

  -- Retaining a buffer in use, whose count does not overflow, adds a reference, and changes nothing
  -- else of a valid pool.
  pub retain_correct :
      0 < buf.ref_cnt
      → buf.ref_cnt + 1 < u32_mod
      → IsPool (retain (i, n) p)
        × Changed (record buf { ref_cnt = buf.ref_cnt + 1 }) (retain (i, n) p)
  unfolding retain
  retain_correct pos small =
      let h = home in
      let f = λ (b : Buffer). record b { ref_cnt = add32 b.ref_cnt 1 } in
      let pl = h.placed in
      Changed-by h (set_buffer n f) (record buf { ref_cnt = buf.ref_cnt + 1 }) (retain (i, n) p)
        (ground (arith, h.is_buf)) refl
        (set_buffer-IsBin h.bin h.is_bin n f h.inside (ground (arith, h.is_buf))
          (ground (arith, h.is_buf)) (ground (arith, pl)))

  release_value :
      buf.bin_idx ≡ i
      → release (i, n) p ≡ (
          if buf.ref_cnt == 1
          then record {
            bins = modify_bin i (give_buffer n) p.bins;
            ctxs = ctx_release p.ctxs buf.reply_ctx;
          }
          else record p {
            bins =
                modify_bin i (set_buffer n (λ c. record c { ref_cnt = sub32 c.ref_cnt 1 })) p.bins;
          })
  unfolding release
  release_value e = rw (found, release) (rw e refl)

  -- Releasing a buffer in use of a valid pool takes a reference away, changes no other buffer and
  -- keeps the pool valid; the last reference gives the buffer back, wiped, with its reply context
  -- released.
  pub release_correct :
      0 < buf.ref_cnt
      → buf.ref_cnt < u32_mod
      → IsPool (release (i, n) p)
        × Changed
            (if buf.ref_cnt == 1 then wiped buf else record buf { ref_cnt = buf.ref_cnt - 1 })
            (release (i, n) p)
        × ((release (i, n) p).ctxs
            ≡ (if buf.ref_cnt == 1 then ctx_release p.ctxs buf.reply_ctx else p.ctxs))
  unfolding give_buffer set_buffer
  release_correct pos small =
      let h = home in
      let pl = h.placed in
      let e : buf.bin_idx ≡ i = ground (arith, pl, h.is_buf) in
      elim (Bool-cases (buf.ref_cnt == 1)) [
        | inl last ↦
            let q : Pool = record {
              bins = modify_bin i (give_buffer n) p.bins;
              ctxs = ctx_release p.ctxs buf.reply_ctx;
            } in
            let (a, b) =
              Changed-by h (give_buffer n) (wiped buf) q (ground (arith, h.is_buf)) refl
                (give_buffer-IsBin h.bin h.is_bin n h.inside (ground (arith, h.is_buf))) in
            rw (release_value e, last) (a, b, refl)
        | inr more ↦
            let f = λ (b : Buffer). record b { ref_cnt = sub32 b.ref_cnt 1 } in
            let w = record buf { ref_cnt = buf.ref_cnt - 1 } in
            let q = record p { bins = modify_bin i (set_buffer n f) p.bins } in
            let (a, b) = Changed-by h (set_buffer n f) w q (ground (arith, h.is_buf)) refl (
              set_buffer-IsBin h.bin h.is_bin n f h.inside (ground (arith, h.is_buf))
                (ground (arith, h.is_buf)) (ground (arith, pl))) in
            rw (release_value e, more) (a, b, refl)
      ]
