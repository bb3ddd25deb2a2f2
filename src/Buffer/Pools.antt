-- ===== src/Buffer/Pools.antt =====
-- The pool invariant, and `nos_buffer_init_pool` and `nos_buffer_alloc` on the whole pool.
use codex_nos.Base.{
  ℕ, zero, suc, ◌+◌, ◌<◌, ◌≡◌, inl, inr, refl, ap, true, false, Option, none, some, List, [], ◌∷◌,
  All, get_elem?, set, arith, Bool-cases,
}
use codex_nos.Buffer.{Bin, Pool, BufPtr, top_index, take_buffer, fits, alloc_from}
use codex_nos.Buffer.Bins.{IsBin}

-- Bins in their places, counted from `i`.
abbrev pub AreBins : ℕ → List Bin → Type 0
AreBins i [] = Unit
AreBins i (b ∷ bs) = IsBin i b × AreBins (suc i) bs

abbrev pub IsPool : Pool → Type 0
IsPool p = AreBins 0 p.bins

pub AreBins-get :
    (i j : ℕ) (bs : List Bin) {b : Bin} → AreBins i bs → get_elem? bs j ≡ some b → IsBin (i + j) b
AreBins-get i j [] v h = absurd (cc)
AreBins-get i zero (b ∷ bs) v h = let e : i + 0 ≡ i = omega arith in rw e (ground (arith, v.0))
AreBins-get i (suc j) (b ∷ bs) v h =
    let e : suc i + j ≡ i + suc j = omega arith in rw e at (AreBins-get (suc i) j bs v.1 h)

pub AreBins-set :
    (i j : ℕ) (bs : List Bin) (b : Bin) → AreBins i bs → IsBin (i + j) b → AreBins i (set bs j b)
AreBins-set i j [] b v h = tt
AreBins-set i zero (c ∷ bs) b v h = let e : i + 0 ≡ i = omega arith in (rw e at h, v.1)
AreBins-set i (suc j) (c ∷ bs) b v h =
    let e : i + suc j ≡ suc i + j = omega arith in (v.0, AreBins-set (suc i) j bs b v.1 (rw e at h))

-- The choice of the loop: the first bin `j` that fits, or no bin.
pub record Chosen (size head i : ℕ) (bs : List Bin) (r : BufPtr) (bs' : List Bin) : Type 0 where
  pub j : ℕ
  pub b : Bin
  pub ptr : r ≡ (i + j, top_index b)
  pub found : get_elem? bs j ≡ some b
  pub fit : fits size head b ≡ true
  pub first : (m : ℕ) (c : Bin) → m < j → get_elem? bs m ≡ some c → fits size head c ≡ false
  pub changed : bs' ≡ set bs j (take_buffer size head b).1

abbrev pub Choice : ℕ → ℕ → ℕ → List Bin → Option BufPtr × List Bin → Type 0
Choice size head i bs (none, bs') = All (λ b. fits size head b ≡ false) bs × (bs' ≡ bs)
Choice size head i bs (some r, bs') = Chosen size head i bs r bs'

Choice-skip :
    (size head i : ℕ) (b : Bin) (bs : List Bin) (r : Option BufPtr) (bs' : List Bin)
    → fits size head b ≡ false
    → Choice size head (suc i) bs (r, bs')
    → Choice size head i (b ∷ bs) (r, b ∷ bs')
Choice-skip size head i b bs none bs' no_fit c = ((no_fit, c.0), ap (◌∷◌ b) c.1)
Choice-skip size head i b bs (some r) bs' no_fit c = record {
  j = suc c.j;
  b = c.b;
  ptr = ground (arith, c.ptr);
  found = c.found;
  fit = c.fit;
  first = λ m d h e. skip m d h e;
  changed = ap (◌∷◌ b) c.changed;
}
  where
    skip :
        (m : ℕ) (d : Bin) → m < suc c.j → get_elem? (b ∷ bs) m ≡ some d → fits size head d ≡ false
    skip zero d h e = ground arith
    skip (suc m) d h e = c.first m d (omega arith) e

pub alloc_from-Choice :
    (size head i : ℕ) (bs : List Bin) → Choice size head i bs (alloc_from size head i bs)
unfolding alloc_from
alloc_from-Choice size head i [] = (tt, refl)
alloc_from-Choice size head i (b ∷ bs) = elim (Bool-cases (fits size head b)) [
  | inl fit ↦ rw fit (record {
    j = 0;
    b = b;
    ptr = ground arith;
    found = refl;
    fit = fit;
    first = λ m c h e. absurd (omega arith);
    changed = refl;
  })
  | inr no_fit ↦
      rw no_fit (Choice-skip size head i b bs _ _ no_fit (alloc_from-Choice size head (suc i) bs))
]
