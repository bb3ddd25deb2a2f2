-- ===== src/Kv/Tests.antt =====
-- The properties of the key-value tables at a new table of four entries, and the hash.
use codex_nos.Base.{
  ℕ, ◌≡◌, refl, leb, if◌then◌else◌, none, some, List, [], ◌∷◌, ◌++◌, length, CString, arith,
}
use codex_nos.Kv.Hash.{murmurhash3_32}
use codex_nos.Kv.Table.{Table, put}
use codex_nos.Kv.Table.Valid.{Valid}
use codex_nos.Kv.Manager.{find_table, table_create, new_table}
use codex_nos.Kv.Manager.Create.{Created, table_create_correct, table_create-diverges, find_created}

-- The published values for the texts "test" and "Hello, world!".
murmur_test : murmurhash3_32 (0x74 ∷ 0x65 ∷ 0x73 ∷ 0x74 ∷ []) 0 ≡ 0xba6bd213
unfolding murmurhash3_32
murmur_test = refl

murmur_hello :
    murmurhash3_32
      (b'H' ∷ b'e' ∷ b'l' ∷ b'l' ∷ b'o' ∷ b',' ∷ b' ' ∷ b'w' ∷ b'o' ∷ b'r' ∷ b'l' ∷ b'd' ∷ b'!'
        ∷ [])
      0
    ≡ 0xc0363e43
unfolding murmurhash3_32
murmur_hello = refl

abbrev arp : CString
arp = b'a' ∷ b'r' ∷ b'p' ∷ []

no_table : find_table 0 [] arp ≡ none
unfolding find_table
no_table = refl

table_create_correct_example : Created arp 2 8 4 [] (table_create 22 (some arp) 2 8 4 [])
table_create_correct_example =
    table_create_correct arp 2 8 4 [] (omega arith) (omega arith) no_table (omega arith)
      (omega arith)

table_create-diverges_example : table_create 100 (some arp) 2 8 2147483649 [] ≡ none
table_create-diverges_example =
    table_create-diverges arp 2 8 2147483649 [] (omega arith) (omega arith) no_table (omega arith)
      100 (omega arith)

find_created_example :
    find_table 0 ([] ++ new_table arp 2 8 4 1024 ∷ []) arp
    ≡ (if leb (length arp) 31 then some 0 else none)
find_created_example = find_created arp 2 8 4 1024 [] no_table

abbrev empty : Table
empty = new_table arp 2 8 4 1024

abbrev key1 : List ℕ
key1 = 1 ∷ 2 ∷ []

-- The table after that put.
abbrev table1 : Table
table1 = (put empty key1 (some (9 ∷ 8 ∷ [])) 2).2
