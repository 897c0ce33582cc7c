-- ===== src/DataStructures/XorFastHash.antt =====
-- DataStructures/XORFastHash.h: tabulation hashing with two shuffled tables.
use osrm_backend.Prelude.{
  ℕ, zero, suc, ◌+◌, ◌*◌, ◌/◌, ◌%◌, ◌^◌, ◌≤◌, ◌<◌, ◌≡◌, true, Option, some, arith, ltb, Array, load,
  Returns, done, ◌>>=◌,
}

pub record XorFastHash : Type 0 where
  pub table1 : Array ℕ
  pub table2 : Array ℕ

-- `2 << 16` entries. An entry is an unsigned short.
abbrev pub table_size : ℕ
table_size = 2 ^ 17

unfoldable pub fill : Array ℕ
fill = record { size = table_size; at = λ i. i % 2 ^ 16 }

-- std::random_shuffle is `shuffle`, once for each table.
unfoldable pub new_hash : (Array ℕ → Array ℕ) → (Array ℕ → Array ℕ) → XorFastHash
unfolding fill
new_hash shuffle1 shuffle2 = record { table1 = shuffle1 fill; table2 = shuffle2 fill }

-- The bitwise exclusive or of the lowest `n` bits.
unfoldable pub xor : ℕ → ℕ → ℕ → ℕ
xor zero a b = 0
xor (suc n) a b = (a + b) % 2 + 2 * xor n (a / 2) (b / 2)

-- `operator()`
unfoldable pub fast_hash : XorFastHash → ℕ → Option ℕ
fast_hash h value = do
  low ← load h.table1 (value % 2 ^ 16)
  high ← load h.table2 (value / 2 ^ 16 % 2 ^ 16)
  some (xor 16 low high)

xor_lt : (n a b : ℕ) → xor n a b < 2 ^ n
unfolding xor
xor_lt zero a b = omega arith
xor_lt (suc n) a b =
    let rest = xor_lt n (a / 2) (b / 2) in
    let double : 2 ^ suc n ≡ 2 * 2 ^ n = grind arith in rw double (omega (arith, rest))

-- A hash is always found, and is an unsigned short.
pub fast_hash_lem :
    (h : XorFastHash) (value : ℕ)
    → 2 ^ 16 ≤ h.table1.size
    → 2 ^ 16 ≤ h.table2.size
    → Returns (λ x. x < 2 ^ 16) (fast_hash h value)
unfolding fast_hash
fast_hash_lem h value p q =
    let a : ltb (value % 2 ^ 16) h.table1.size ≡ true = ground (arith, p) in
    let b : ltb (value / 2 ^ 16 % 2 ^ 16) h.table2.size ≡ true = ground (arith, q) in
    rw (a, b) (done (xor_lt 16 _ _))

-- Hashes are found for all nodes.
pub record Filled (h : XorFastHash) : Type 0 where
  pub table1_le : 2 ^ 16 ≤ h.table1.size
  pub table2_le : 2 ^ 16 ≤ h.table2.size

-- The tables of a new hash have as many entries as they are filled with.
pub new_hash-Filled :
    (shuffle1 shuffle2 : Array ℕ → Array ℕ)
    → ((table : Array ℕ) → (shuffle1 table).size ≡ table.size)
    → ((table : Array ℕ) → (shuffle2 table).size ≡ table.size)
    → Filled (new_hash shuffle1 shuffle2)
unfolding new_hash fill
new_hash-Filled shuffle1 shuffle2 p q = record {
  table1_le = rw (p fill) (omega arith);
  table2_le = rw (q fill) (omega arith);
}
