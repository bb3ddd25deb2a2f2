-- ===== src/Kv/Hash.antt =====
-- `murmurhash3_32`, over the bytes of a key, on a little-endian machine.
use Prim.Native.Nat.{bit_or, bit_xor}
use codex_nos.Base.{ℕ, ◌+◌, ◌*◌, ◌/◌, ◌%◌, ◌^◌, List, [], ◌∷◌, length, u32_mod, add32, mul32}

abbrev c1 : ℕ
c1 = 0xcc9e2d51

abbrev c2 : ℕ
c2 = 0x1b873593

-- `(x << r) | (x >> (32 - r))`, written with both shifts.
abbrev rotate : ℕ → ℕ → ℕ → ℕ
rotate x left right = bit_or (x * 2 ^ left % u32_mod) (x / 2 ^ right)

scramble : ℕ → ℕ
scramble k = mul32 (rotate (mul32 k c1) 15 17) c2

-- One round of the loop over the blocks.
mix : ℕ → ℕ → ℕ
unfolding scramble
mix h k = add32 (mul32 (rotate (bit_xor h (scramble k)) 13 19) 5) 0xe6546b64

-- The loop over the blocks of four bytes, then the `switch` over the bytes left.
body : List ℕ → ℕ → ℕ
unfolding mix
body (a ∷ b ∷ c ∷ d ∷ rest) h = body rest (mix h (a + b * 2 ^ 8 + c * 2 ^ 16 + d * 2 ^ 24))
body (a ∷ b ∷ c ∷ []) h = bit_xor h (scramble (bit_xor (bit_xor (c * 2 ^ 16) (b * 2 ^ 8)) a))
body (a ∷ b ∷ []) h = bit_xor h (scramble (bit_xor (b * 2 ^ 8) a))
body (a ∷ []) h = bit_xor h (scramble a)
body [] h = h

finish : ℕ → ℕ
finish h =
    let h1 = bit_xor h (h / 2 ^ 16) in
    let h2 = mul32 h1 0x85ebca6b in
    let h3 = bit_xor h2 (h2 / 2 ^ 13) in let h4 = mul32 h3 0xc2b2ae35 in bit_xor h4 (h4 / 2 ^ 16)

unfoldable pub murmurhash3_32 : List ℕ → ℕ → ℕ
unfolding body finish
murmurhash3_32 key seed = finish (bit_xor (body key seed) (length key % u32_mod))
