-- ===== src/Buffer/Tests.antt =====
-- The properties of the buffer pool at concrete pools: one bin of two chunks of 64 bytes.
use codex_nos.Base.{
  ◌*◌, ◌%◌, ◌+◌, ◌-◌, ◌<◌, ◌≡◌, ◌≤◌, refl, true, some, [], ◌∷◌, ok, ◌==◌, if◌then◌else◌, arith,
}
use codex_nos.Reply.{ctx_release}
use codex_nos.Buffer.{
  Buffer, Bin, Pool, init_bin, init_pool, alloc, release, lookup_buffer, buffer_at, top_index,
  taken, wiped, null_buffer, init_bins, align_chunk, init_buffers, init_stack, alloc_from,
  take_buffer,
}
use codex_nos.Buffer.Bins.{IsBin, init_bin-IsBin}
use codex_nos.Buffer.Pools.{IsPool}
use codex_nos.Buffer.Alloc.{AllocResult, alloc_correct}
use codex_nos.Buffer.Release.{Changed, release_correct}
use codex_nos.Buffer.Headroom.{IsFramed}
use codex_nos.Buffer.Init.{init_bin_disjoint, alloc-wraps}

abbrev bin1 : Bin
bin1 = init_bin 0 64 2

abbrev pool1 : Pool
pool1 = record { bins = bin1 ∷ []; ctxs = [] }

bin1-IsBin : IsBin 0 bin1
bin1-IsBin = init_bin-IsBin 0 64 2 (omega arith) (omega arith)

pool1-IsPool : IsPool pool1
pool1-IsPool = (bin1-IsBin, tt)

alloc_correct_example : IsPool (alloc 10 4 pool1).1 × AllocResult 10 4 pool1 (alloc 10 4 pool1)
alloc_correct_example = alloc_correct 10 4 pool1 pool1-IsPool (omega arith)

abbrev pool2 : Pool
pool2 = (alloc 10 4 pool1).1

pool2-IsPool : IsPool pool2
pool2-IsPool = (alloc_correct 10 4 pool1 pool1-IsPool (omega arith)).0

abbrev buf2 : Buffer
buf2 = taken 10 4 (buffer_at bin1 (top_index bin1))

found2 : lookup_buffer pool2 (0, 1) ≡ some buf2
unfolding lookup_buffer alloc alloc_from take_buffer init_bin init_buffers init_stack
found2 = refl

one2 : buf2.ref_cnt ≡ 1
one2 = refl

release_correct_example :
    IsPool (release (0, 1) pool2)
    × Changed pool2 0 1 buf2 pool2-IsPool found2
        (if buf2.ref_cnt == 1 then wiped buf2 else record buf2 { ref_cnt = buf2.ref_cnt - 1 })
        (release (0, 1) pool2)
    × ((release (0, 1) pool2).ctxs
        ≡ (if buf2.ref_cnt == 1 then ctx_release pool2.ctxs buf2.reply_ctx else pool2.ctxs))
release_correct_example =
    release_correct pool2 0 1 buf2 pool2-IsPool found2 (omega arith) (omega arith)

abbrev framed : Buffer
framed = record null_buffer { data_off = 8; headroom = 8; len = 20; tailroom = 4; capacity = 32 }

framed-IsFramed : IsFramed framed
framed-IsFramed = record { data_at = refl; parts = refl; small = omega arith }

init1 :
    init_pool (λ i. true) (some ((10, 2) ∷ (0, 0) ∷ [])) (record { bins = []; ctxs = [] })
    ≡ some (ok, pool1)
unfolding init_pool init_bins align_chunk
init1 = refl

chunk_fits : align_chunk 100 * 4 < 4294967296
unfolding align_chunk
chunk_fits = omega arith

init_bin_disjoint_example :
    ((buffer_at (init_bin 0 (align_chunk 100) 4) 1).raw_off + 100
      ≤ (buffer_at (init_bin 0 (align_chunk 100) 4) 3).raw_off)
    × ((buffer_at (init_bin 0 (align_chunk 100) 4) 3).raw_off + 100 ≤ align_chunk 100 * 4)
    × (100 ≤ (buffer_at (init_bin 0 (align_chunk 100) 4) 1).capacity)
init_bin_disjoint_example =
    init_bin_disjoint 0 100 4 1 3 (omega arith) (omega arith) chunk_fits (omega arith) (omega arith)

bin1_free : (4294967290 + 10) % 4294967296 ≤ bin1.chunk_size
unfolding init_bin
bin1_free = omega arith

bin1_room : 0 < bin1.free_len
unfolding init_bin
bin1_room = omega arith

alloc-wraps_example :
    ((alloc 4294967290 10 pool1).0 ≡ some (0, top_index bin1)) × (bin1.chunk_size < 4294967290 + 10)
alloc-wraps_example =
    alloc-wraps 4294967290 10 pool1 bin1 [] pool1-IsPool refl (omega arith) bin1_free bin1_room
