-- ===== src/Buffer/Init.antt =====
-- `nos_buffer_init_pool`, the layout of a bin's memory, and the sum that `nos_buffer_alloc` makes.
use native.Mathlib.Nat.{mod-eq_of_lt}
use native.Mathlib.Numerals.{add-one}
use codex_nos.Base.{
  ℕ, suc, ◌+◌, ◌-◌, ◌*◌, ◌%◌, ◌≤◌, ◌<◌, ◌≡◌, ◌⊎◌, inl, inr, refl, ap, Bool, true, false, some, List,
  [], ◌∷◌, All, length, mul32, u32_mod, arith, ltb, ◌&&◌, if◌then◌else◌, Bool-cases, Option-cases,
  Status, ok,
}
use codex_nos.Buffer.{
  Bin, Pool, buffer_at, top_index, fits, alloc_from, alloc, align_chunk, init_bin, init_bins,
  init_pool, max_bins,
}
use codex_nos.Buffer.Bins.{IsBin, init_bin-IsBin}
use codex_nos.Buffer.Pools.{AreBins, IsPool}

align_chunk_lem : (n : ℕ) → n + 63 < u32_mod → (n ≤ align_chunk n) × (align_chunk n < u32_mod)
unfolding align_chunk
align_chunk_lem n h = omega arith

align_chunk_small : (n : ℕ) → align_chunk n < u32_mod
unfolding align_chunk
align_chunk_small n = omega arith

-- The counts of a configuration fit `uint32_t`.
abbrev pub CountsFit : List (ℕ × ℕ) → Type 0
CountsFit = All (λ c. c.1 < u32_mod)

-- The number of bins that a configuration describes, up to its end mark and the table's size.
abbrev pub configured : ℕ → List (ℕ × ℕ) → ℕ
configured i [] = 0
configured i ((size, count) ∷ config) =
    let rest = configured (i + 1) config in if ltb 0 size && ltb i max_bins then suc rest else 0

-- How a run of the loop can end.
init_bins_step :
    (memalign : ℕ → Bool) (i size count : ℕ) (config : List (ℕ × ℕ)) (bs : List Bin)
    → init_bins memalign i ((size, count) ∷ config) ≡ some bs
    → (((ltb 0 size && ltb i max_bins) ≡ false) × (bs ≡ []))
      ⊎ (((ltb 0 size && ltb i max_bins) ≡ true)
          × ((rest : List Bin) × (init_bins memalign (i + 1) config ≡ some rest)
              × (bs ≡ init_bin i (align_chunk size) count ∷ rest)))
unfolding init_bins
init_bins_step memalign i size count config bs h =
    elim (Option-cases (init_bins memalign (i + 1) config)) [
      | inl e ↦ inl (ground arith)
      | inr (rest, e) ↦ elim (Bool-cases (ltb 0 size && ltb i max_bins)) [
        | inl go ↦ inr (go, (rest, e, ground arith))
        | inr stop ↦ inl (ground arith)
      ]
    ]

init_bins-AreBins :
    (memalign : ℕ → Bool) (i : ℕ) (config : List (ℕ × ℕ)) (bs : List Bin)
    → CountsFit config
    → init_bins memalign i config ≡ some bs
    → AreBins i bs × (length bs ≡ configured i config)
init_bins-AreBins memalign i [] bs fit h =
    let e : bs ≡ [] = unfold init_bins in ground arith in rw e (tt, refl)
init_bins-AreBins memalign i ((size, count) ∷ config) bs fit h =
    elim (init_bins_step memalign i size count config bs h) [
      | inl (stop, e) ↦ rw (stop, e) (tt, refl)
      | inr (go, (rest, e, e')) ↦
          let (valid, len) = init_bins-AreBins memalign (i + 1) config rest fit.1 e in
          rw (go, e')
            (
              (
                init_bin-IsBin i (align_chunk size) count (align_chunk_small size) fit.0,
                rw (← add-one) valid,
              ),
              ap suc len,
            )
    ]

-- If the initialisation, with counts that fit 32 bits, returns on a valid pool, the pool is valid
-- and the result is a success: a pool that is already there keeps its bins, and an empty one has one
-- bin for each configured size, up to eight.
pub init_pool_correct :
    (memalign : ℕ → Bool) (config : List (ℕ × ℕ)) (p p' : Pool) (s : Status)
    → CountsFit config
    → IsPool p
    → init_pool memalign (some config) p ≡ some (s, p')
    → IsPool p'
      × (s ≡ ok)
      × (length p'.bins ≡ (if ltb 0 (length p.bins) then length p.bins else configured 0 config))
unfolding init_pool
init_pool_correct memalign config p p' s fit v h = elim (Bool-cases (ltb 0 (length p.bins))) [
  | inl old ↦ let e : p ≡ p' = ground arith in rw old (rw (← e) (v, ground arith, refl))
  | inr fresh ↦ elim (Option-cases (init_bins memalign 0 config)) [
    | inl fail ↦ absurd (ground arith)
    | inr (bs, e) ↦
        let (valid, len) = init_bins-AreBins memalign 0 config bs fit e in
        let e' : p'.bins ≡ bs = ground arith in rw fresh (rw e' (valid, ground arith, len))
  ]
]

mul_step :
    (n m size count : ℕ)
    → n < m
    → m < count
    → (n * size + size ≤ m * size) × (m * size + size ≤ count * size)
mul_step n m size count h h' = grind arith

chunks_disjoint :
    (i : ℕ) (b : Bin) (n m : ℕ)
    → IsBin i b
    → b.chunk_size * b.chunk_count < u32_mod
    → n < m
    → m < b.chunk_count
    → ((buffer_at b n).raw_off + (buffer_at b n).capacity ≤ (buffer_at b m).raw_off)
      × ((buffer_at b m).raw_off + (buffer_at b m).capacity ≤ mul32 b.chunk_size b.chunk_count)
chunks_disjoint i b n m v fit h h' =
    let (s, t) = mul_step n m b.chunk_size b.chunk_count h h' in
    let pn = v.placed n (omega arith) in
    let pm = v.placed m h' in
    let en : mul32 n b.chunk_size ≡ n * b.chunk_size = mod-eq_of_lt (omega arith) in
    let em : mul32 m b.chunk_size ≡ m * b.chunk_size = mod-eq_of_lt (omega arith) in
    let ec : mul32 b.chunk_size b.chunk_count ≡ b.chunk_size * b.chunk_count = mod-eq_of_lt fit in
    omega (arith, pn.raw, pn.size, pm.raw, pm.size, s, t, en, em, ec)

-- A new bin for buffers of a size that, rounded up to cache lines and times their count, fits 32
-- bits gives each of its buffers a chunk of at least that size, and the chunks of two of them do not
-- overlap and lie inside the memory of the bin.
pub init_bin_disjoint :
    (i size count n m : ℕ)
    → size + 63 < u32_mod
    → count < u32_mod
    → align_chunk size * count < u32_mod
    → n < m
    → m < count
    → ((buffer_at (init_bin i (align_chunk size) count) n).raw_off + size
        ≤ (buffer_at (init_bin i (align_chunk size) count) m).raw_off)
      × ((buffer_at (init_bin i (align_chunk size) count) m).raw_off + size
          ≤ align_chunk size * count)
      × (size ≤ (buffer_at (init_bin i (align_chunk size) count) n).capacity)
unfolding init_bin
init_bin_disjoint i size count n m small few fit h h' =
    let b : Bin = init_bin i (align_chunk size) count in
    let v : IsBin i b = init_bin-IsBin i (align_chunk size) count (align_chunk_small size) few in
    let (s, t) = align_chunk_lem size small in
    let pn = v.placed n (omega arith) in
    let pm = v.placed m h' in
    let cn : (buffer_at b n).capacity ≡ align_chunk size = pn.size in
    let cm : (buffer_at b m).capacity ≡ align_chunk size = pm.size in
    let all : mul32 (align_chunk size) count ≡ align_chunk size * count = mod-eq_of_lt fit in
    let (x, y) = chunks_disjoint i b n m v fit h h' in
    (omega (arith, x, s, cn), omega (arith, y, s, cm, all), omega (arith, s, cn))

-- The sum of size and headroom wraps: for a request of 4 GiB or more whose sum modulo 2^32 is at
-- most the chunk size of the first bin of a valid pool, which has a free buffer, the call succeeds,
-- and the buffer is too small for what was asked.
pub alloc-wraps :
    (size head : ℕ) (p : Pool) (b : Bin) (bs : List Bin)
    → IsPool p
    → p.bins ≡ b ∷ bs
    → u32_mod ≤ size + head
    → (size + head) % u32_mod ≤ b.chunk_size
    → 0 < b.free_len
    → ((alloc size head p).0 ≡ some (0, top_index b)) × (b.chunk_size < size + head)
unfolding alloc alloc_from
alloc-wraps size head p b bs v e big small some_free =
    let fit : fits size head b ≡ true = ground arith in
    let vb : IsBin 0 b = (let w = rw e at v in w.0) in
    let inside = vb.stack_in (b.free_len - 1) (ground arith) in
    let pl = vb.placed (top_index b) inside in
    (rw (e, fit) refl, ground (arith, pl.framed, pl.size))
