-- ===== src/Buffer.antt =====
-- src/core/nos_buffer.c: the pool of reference-counted buffers, in bins of one chunk size each.
-- A buffer pointer is its (bin, index). The pool lock makes each call one step. The allocations of
-- `nos_buffer_init_pool` are taken to succeed, but for `posix_memalign`, which is a parameter.
-- `free_len` is the source's `free_top + 1`; `raw_off` and `data_off` are the distances of
-- `raw_data` from the bin's memory and of `data` from `raw_data`.
pub mod Headroom
pub mod Bins
pub mod Moves
pub mod Pools
pub mod Alloc
pub mod Release
pub mod Init
mod Tests
use codex_nos.Base.{
  ℕ, zero, suc, ◌+◌, ◌-◌, ◌*◌, ◌/◌, Bool, true, false, ◌&&◌, Option, none, some, List, [], ◌∷◌,
  Status, ok, err, length, get_or, get_elem?, set, add32, sub32, mul32, add64, u64_mod, ◌%◌, ltb,
  leb, ◌==◌, if◌then◌else◌,
}
use codex_nos.Reply.{CtxTable, ctx_release}

-- `nos_buffer_t`
pub record Buffer : Type 0 where
  pub raw_off : ℕ
  pub data_off : ℕ
  pub capacity : ℕ
  pub len : ℕ
  pub headroom : ℕ
  pub tailroom : ℕ
  pub ref_cnt : ℕ
  pub bin_idx : ℕ
  pub pool_idx : ℕ
  pub reply_ctx : Option ℕ

abbrev pub null_buffer : Buffer
null_buffer = record {
  raw_off = 0;
  data_off = 0;
  capacity = 0;
  len = 0;
  headroom = 0;
  tailroom = 0;
  ref_cnt = 0;
  bin_idx = 0;
  pool_idx = 0;
  reply_ctx = none;
}

-- `nos_buffer_bin_t`
pub record Bin : Type 0 where
  pub chunk_size : ℕ
  pub chunk_count : ℕ
  pub raw_size : ℕ
  pub buffers : List Buffer
  pub free_stack : List ℕ
  pub free_len : ℕ
  pub used_count : ℕ
  pub peak_count : ℕ

-- The first `g_bin_count` bins, with the reply contexts that buffers point to.
pub record Pool : Type 0 where
  pub bins : List Bin
  pub ctxs : CtxTable

abbrev pub BufPtr : Type 0
BufPtr = ℕ × ℕ

abbrev pub max_bins : ℕ
max_bins = 8

abbrev pub cache_line_size : ℕ
cache_line_size = 64

-- `(n + CACHE_LINE_SIZE - 1) & ~(CACHE_LINE_SIZE - 1)`
unfoldable pub align_chunk : ℕ → ℕ
align_chunk n = add32 n (cache_line_size - 1) / cache_line_size * cache_line_size

-- The loop over `j` of `nos_buffer_init_pool`, with `n` rounds left.
unfoldable pub init_buffers : ℕ → ℕ → ℕ → ℕ → List Buffer
init_buffers i size j zero = []
init_buffers i size j (suc n) =
    record {
      raw_off = mul32 j size;
      data_off = 0;
      capacity = size;
      len = 0;
      headroom = 0;
      tailroom = size;
      ref_cnt = 0;
      bin_idx = i;
      pool_idx = j;
      reply_ctx = none;
    }
    ∷ init_buffers i size (j + 1) n

-- The same loop's pushes on the free stack.
unfoldable pub init_stack : ℕ → ℕ → List ℕ
init_stack j zero = []
init_stack j (suc n) = j ∷ init_stack (j + 1) n

unfoldable pub init_bin : ℕ → ℕ → ℕ → Bin
unfolding init_buffers init_stack
init_bin i size count = record {
  chunk_size = size;
  chunk_count = count;
  raw_size = mul32 size count;
  buffers = init_buffers i size 0 count;
  free_stack = init_stack 0 count;
  free_len = count;
  used_count = 0;
  peak_count = 0;
}

-- The loop over the configured bins; `none` is `exit(EXIT_FAILURE)` when `posix_memalign` fails.
unfoldable pub init_bins : (ℕ → Bool) → ℕ → List (ℕ × ℕ) → Option (List Bin)
unfolding init_bin align_chunk
init_bins memalign i [] = some []
init_bins memalign i ((size, count) ∷ config) =
    let b = init_bin i (align_chunk size) count in
    let rest : Option (List Bin) = elim (init_bins memalign (i + 1) config) [
      | none ↦ none
      | some bs ↦ some (b ∷ bs)
    ] in
    if ltb 0 size && ltb i max_bins then (if memalign b.raw_size then rest else none) else some []

-- `nos_buffer_init_pool`; a null `config` is `none`.
unfoldable pub init_pool : (ℕ → Bool) → Option (List (ℕ × ℕ)) → Pool → Option (Status × Pool)
unfolding init_bins
init_pool memalign none p = some (err, p)
init_pool memalign (some config) p =
    if ltb 0 (length p.bins) then some (ok, p) else elim (init_bins memalign 0 config) [
      | none ↦ none
      | some bs ↦ some (ok, record p { bins = bs })
    ]

-- `nos_buffer_deinit_pool`
unfoldable pub deinit_pool : Pool → Pool
deinit_pool p = record p { bins = [] }

abbrev pub buffer_at : Bin → ℕ → Buffer
buffer_at b n = get_or b.buffers n null_buffer

-- The index that the next allocation from a bin takes.
abbrev pub top_index : Bin → ℕ
top_index b = get_or b.free_stack (b.free_len - 1) 0

-- What `nos_buffer_alloc` writes into the buffer that it returns.
abbrev pub taken : ℕ → ℕ → Buffer → Buffer
taken size head buf = record buf {
  ref_cnt = 1;
  headroom = head;
  data_off = head;
  len = size;
  tailroom = sub32 (sub32 buf.capacity head) size;
  reply_ctx = none;
}

-- The body of `nos_buffer_alloc`'s loop, for the bin that is chosen.
unfoldable pub take_buffer : ℕ → ℕ → Bin → ℕ × Bin
take_buffer size head b =
    let idx = top_index b in
    let used = add32 b.used_count 1 in
    (
      idx,
      record b {
        free_len = b.free_len - 1;
        buffers = set b.buffers idx (taken size head (buffer_at b idx));
        used_count = used;
        peak_count = if ltb b.peak_count used then used else b.peak_count;
      },
    )

-- The test of `nos_buffer_alloc`'s loop.
abbrev pub fits : ℕ → ℕ → Bin → Bool
fits size head b = leb (add32 size head) b.chunk_size && ltb 0 b.free_len

-- The loop of `nos_buffer_alloc` from bin `i` on.
unfoldable pub alloc_from : ℕ → ℕ → ℕ → List Bin → Option BufPtr × List Bin
unfolding take_buffer
alloc_from size head i [] = (none, [])
alloc_from size head i (b ∷ bs) =
    let (r, bs') = alloc_from size head (suc i) bs in
    let (idx, b') = take_buffer size head b in
    if fits size head b then (some (i, idx), b' ∷ bs) else (r, b ∷ bs')

-- `nos_buffer_alloc`
unfoldable pub alloc : ℕ → ℕ → Pool → Option BufPtr × Pool
unfolding alloc_from
alloc size head p = let (r, bs) = alloc_from size head 0 p.bins in (r, record p { bins = bs })

-- A change of one bin, and of one buffer.
unfoldable pub modify_bin : ℕ → (Bin → Bin) → List Bin → List Bin
modify_bin i f [] = []
modify_bin zero f (b ∷ bs) = f b ∷ bs
modify_bin (suc i) f (b ∷ bs) = b ∷ modify_bin i f bs

unfoldable pub set_buffer : ℕ → (Buffer → Buffer) → Bin → Bin
set_buffer n f b = record b { buffers = set b.buffers n (f (buffer_at b n)) }

-- The buffer behind a pointer.
unfoldable pub lookup_buffer : Pool → BufPtr → Option Buffer
lookup_buffer p (i, n) = elim (get_elem? p.bins i) [ none ↦ none | some b ↦ get_elem? b.buffers n ]

-- `nos_buffer_retain`
unfoldable pub retain : BufPtr → Pool → Pool
unfolding modify_bin set_buffer
retain (i, n) p = record p {
  bins = modify_bin i (set_buffer n (λ buf. record buf { ref_cnt = add32 buf.ref_cnt 1 })) p.bins;
}

-- The reset of a buffer by its last `nos_buffer_release`.
abbrev pub wiped : Buffer → Buffer
wiped buf = record buf {
  ref_cnt = 0;
  data_off = 0;
  len = 0;
  headroom = 0;
  tailroom = buf.capacity;
  reply_ctx = none;
}

-- The last `nos_buffer_release` gives the buffer back to its bin.
unfoldable pub give_buffer : ℕ → Bin → Bin
give_buffer n b = record b {
  free_stack = set b.free_stack b.free_len (buffer_at b n).pool_idx;
  free_len = b.free_len + 1;
  used_count = sub32 b.used_count 1;
  buffers = set b.buffers n (wiped (buffer_at b n));
}

-- `nos_buffer_release`; a buffer lies in the bin that its `bin_idx` names.
unfoldable pub release : BufPtr → Pool → Pool
unfolding modify_bin set_buffer give_buffer lookup_buffer
release (i, n) p = elim (lookup_buffer p (i, n)) [
  | none ↦ p
  | some buf ↦
      if buf.ref_cnt == 1
      then record {
        bins = modify_bin buf.bin_idx (give_buffer n) p.bins;
        ctxs = ctx_release p.ctxs buf.reply_ctx;
      }
      else record p {
        bins = modify_bin i (set_buffer n (λ c. record c { ref_cnt = sub32 c.ref_cnt 1 })) p.bins;
      }
]

-- `nos_buffer_push`: the new distance of `data`, or NULL.
unfoldable pub push : Buffer → ℕ → Option ℕ × Buffer
push b size = if ltb b.headroom size then (none, b) else (
  some (b.data_off - size),
  record b {
    headroom = sub32 b.headroom size;
    data_off = b.data_off - size;
    len = add32 b.len size;
  },
)

-- `nos_buffer_pull`
unfoldable pub pull : Buffer → ℕ → Option ℕ × Buffer
pull b size = if ltb b.len size then (none, b) else (
  some (b.data_off + size),
  record b {
    headroom = add32 b.headroom size;
    data_off = b.data_off + size;
    len = sub32 b.len size;
  },
)

-- `sizeof` of `nos_buffer_bin_t`, `nos_buffer_t` and `uint32_t` on a 64-bit platform.
abbrev pub sizeof_bin : ℕ
sizeof_bin = 48

abbrev pub sizeof_buffer : ℕ
sizeof_buffer = 56

-- `nos_buffer_get_total_mem_usage`
unfoldable pub total_mem : List Bin → ℕ → ℕ
total_mem [] total = total
total_mem (b ∷ bs) total =
    total_mem bs (
      add64 total (sizeof_bin + b.chunk_count * (b.chunk_size + sizeof_buffer) + b.chunk_count * 4))
