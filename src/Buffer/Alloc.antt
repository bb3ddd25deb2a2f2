-- ===== src/Buffer/Alloc.antt =====
-- `nos_buffer_alloc` and `nos_buffer_init_pool` on the whole pool.
use codex_nos.Base.{
  ℕ, ◌+◌, ◌-◌, ◌≤◌, ◌<◌, ◌≡◌, ◌≢◌, refl, false, Option, none, some, List, All, get_elem?,
  get_elem?-set_self, get_elem?-set_ne, lt_of_get_elem?, u32_mod, arith,
}
use codex_nos.Buffer.{
  Bin, Pool, BufPtr, buffer_at, top_index, taken, take_buffer, fits, alloc_from, alloc,
  lookup_buffer,
}
use codex_nos.Buffer.Bins.{IsBin}
use codex_nos.Buffer.Moves.{take_buffer-IsBin}
use codex_nos.Buffer.Pools.{IsPool, AreBins-get, AreBins-set, Chosen, Choice, alloc_from-Choice}

-- What a successful call gives: buffer `n` of bin `i`, the first bin that fits, which was free and
-- now has one reference and the requested frame; the other bins and the contexts are unchanged.
pub record Allocated (size head : ℕ) (p : Pool) (i n : ℕ) (p' : Pool) : Type 0 where
  pub bin : Bin
  pub found : get_elem? p.bins i ≡ some bin
  pub inside : n < bin.chunk_count
  pub free : (buffer_at bin n).ref_cnt ≡ 0
  pub room : size + head ≤ bin.chunk_size
  pub first : (m : ℕ) (c : Bin) → m < i → get_elem? p.bins m ≡ some c → fits size head c ≡ false
  pub stored : lookup_buffer p' (i, n) ≡ some (taken size head (buffer_at bin n))
  pub others : (m : ℕ) → m ≢ i → get_elem? p'.bins m ≡ get_elem? p.bins m
  pub ctxs : p'.ctxs ≡ p.ctxs

abbrev pub AllocResult : ℕ → ℕ → Pool → Option BufPtr × Pool → Type 0
AllocResult size head p (none, p') = All (λ b. fits size head b ≡ false) p.bins × (p' ≡ p)
AllocResult size head p (some (i, n), p') = Allocated size head p i n p'

module _ (size head : ℕ) (p : Pool) (v : IsPool p) (small : size + head < u32_mod) where
  Chosen-result :
      (r : BufPtr) (bs : List Bin)
      → Chosen size head 0 p.bins r bs
      → IsPool (record p { bins = bs }) × Allocated size head p r.0 r.1 (record p { bins = bs })
  unfolding lookup_buffer take_buffer
  Chosen-result r bs c =
      let bin_ok : IsBin (0 + c.j) c.b = AreBins-get 0 c.j p.bins v c.found in
      let free : 0 < c.b.free_len = ground (arith, c.fit) in
      let room : size + head ≤ c.b.chunk_size = ground (arith, c.fit) in
      let n = top_index c.b in
      let b' = (take_buffer size head c.b).1 in
      let inside : n < c.b.chunk_count = bin_ok.stack_in (c.b.free_len - 1) (omega arith) in
      let at : r.0 ≡ c.j = ground (arith, c.ptr) in
      let at' : r.1 ≡ n = ground (arith, c.ptr) in
      let here : get_elem? bs c.j ≡ some b' =
        rw c.changed (get_elem?-set_self p.bins c.j b' (lt_of_get_elem? p.bins c.j c.found)) in
      (
        rw c.changed
            (AreBins-set 0 c.j p.bins b' v (take_buffer-IsBin c.b bin_ok size head free room)),
        rw (at, at')
            (record {
              bin = c.b;
              found = c.found;
              inside = inside;
              free = bin_ok.stack_free (c.b.free_len - 1) (omega arith);
              room = room;
              first = λ m d h e. c.first m d h e;
              stored =
                  rw (here, lookup_buffer)
                    (get_elem?-set_self c.b.buffers n (taken size head (buffer_at c.b n))
                      (omega (arith, bin_ok.buffers_len)));
              others =
                  λ m ne. rw c.changed (get_elem?-set_ne p.bins c.j m b' (λ e. ne (omega arith)));
              ctxs = refl;
            }),
      )

  by-Choice :
      (o : Option BufPtr × List Bin)
      → Choice size head 0 p.bins o
      → IsPool (record p { bins = o.1 }) × AllocResult size head p (o.0, record p { bins = o.1 })
  by-Choice (none, bs) c = (rw c.1 v, (c.0, λ i. record p { bins = c.1 i }))
  by-Choice (some r, bs) c = Chosen-result r bs c

  -- On a valid pool, for a request whose sum fits 32 bits, an allocation gives a free buffer of the
  -- first bin that fits, with one reference and the requested frame, or fails and changes nothing
  -- when no bin fits; the pool stays valid.
  pub alloc_correct : IsPool (alloc size head p).1 × AllocResult size head p (alloc size head p)
  unfolding alloc
  alloc_correct = by-Choice (alloc_from size head 0 p.bins) (alloc_from-Choice size head 0 p.bins)
