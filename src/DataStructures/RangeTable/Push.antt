-- ===== src/DataStructures/RangeTable/Push.antt =====
-- The loop of RangeTable's constructor keeps what its assertion says, and the blocks.
use osrm_backend.Prelude.{
  ℕ, zero, suc, ◌+◌, ◌-◌, ◌*◌, ◌/◌, ◌%◌, ◌^◌, ◌≤◌, ◌<◌, ◌≡◌, refl, sym, true, some, List, [], ◌∷◌,
  arith, ltb, leb, ◌==◌, length, get_or, Returns, done, Returns->>=, Bool-cases, inl, inr,
}
use osrm_backend.DataStructures.RangeTable.{
  Builder, start_entry, check_sum, keep_full, advance, push_length, push_lengths,
}

-- The sum of the first `n` lengths.
abbrev pub total : (ℕ → ℕ) → ℕ → ℕ
total f zero = 0
total f (suc n) = total f n + f n

pub total_mono : (f : ℕ → ℕ) (m n : ℕ) → total f m ≤ total f (m + n)
total_mono f m zero = let z : m + 0 ≡ m = omega arith in rw z (omega arith)
total_mono f m (suc n) =
    let z : m + suc n ≡ suc (m + n) = omega arith in rw z (omega (arith, total_mono f m n))

module _ (f : ℕ → ℕ) where
  total-pred : (n : ℕ) → 0 < n → total f n ≡ total f (n - 1) + f (n - 1)
  total-pred zero p = elim p [ ]
  total-pred (suc n) p = let z : suc n - 1 ≡ n = omega arith in rw z refl

  -- After `n` lengths: `block_counter` blocks are full, and the last one has its first lengths but for
  -- the newest.
  pub record Built (n : ℕ) (b : Builder) : Type 0 where
    pub place : n ≡ 17 * b.block_counter + b.block_idx
    pub small : b.block_idx < 17
    pub begun : b.block_offsets.size ≡ (n + 16) / 17
    pub offsets : (j : ℕ) → 17 * j < n → b.block_offsets.at j ≡ total f (17 * j)
    pub full : b.diff_blocks.size ≡ b.block_counter
    pub blocks : (j : ℕ) → j < b.block_counter → (b.diff_blocks.at j).size ≡ 16
    pub lengths :
        (j k : ℕ) → j < b.block_counter → k < 16 → (b.diff_blocks.at j).at k ≡ f (17 * j + k)
    pub block_size_eq : b.block.size ≡ 16
    pub newest : (k : ℕ) → k + 1 < b.block_idx → b.block.at k ≡ f (17 * b.block_counter + k)
    pub last : 0 < b.block_idx → b.last_length ≡ f (n - 1)
    pub prefix : b.lengths_prefix_sum ≡ total f n
    pub partial : 0 < b.block_idx → total f (17 * b.block_counter) + b.block_sum ≡ total f (n - 1)

  -- In the loop's body, when the block has the newest length too.
  record Started (n : ℕ) (b : Builder) : Type 0 where
    place : n ≡ 17 * b.block_counter + b.block_idx
    small : b.block_idx < 17
    begun : b.block_offsets.size ≡ b.block_counter + 1
    offsets : (j : ℕ) → 17 * j ≤ n → b.block_offsets.at j ≡ total f (17 * j)
    full : b.diff_blocks.size ≡ b.block_counter
    blocks : (j : ℕ) → j < b.block_counter → (b.diff_blocks.at j).size ≡ 16
    lengths : (j k : ℕ) → j < b.block_counter → k < 16 → (b.diff_blocks.at j).at k ≡ f (17 * j + k)
    block_size_eq : b.block.size ≡ 16
    newest : (k : ℕ) → k < b.block_idx → b.block.at k ≡ f (17 * b.block_counter + k)
    prefix : b.lengths_prefix_sum ≡ total f n
    partial : total f (17 * b.block_counter) + b.block_sum ≡ total f n

  module _ (bounded : (i : ℕ) → f i ≤ 255) where
    start_entry_lem :
        (n : ℕ) (b : Builder) → Built n b → total f n < 2 ^ 32 → Returns (Started n) (start_entry b)
    unfolding start_entry
    start_entry_lem n b i fits = elim (Bool-cases (b.block_idx == 0)) [
      | inl y ↦ rw y (
          done (record {
            place = i.place;
            small = i.small;
            begun = ground (arith, i.place, i.begun);
            offsets = λ j p. elim (Bool-cases (j == b.block_offsets.size)) [
              | inl z ↦
                  let w : n ≡ 17 * j = ground (arith, i.place, i.begun, z, p, y) in
                  rw (z, ← w) i.prefix
              | inr z ↦ rw z (i.offsets j (ground (arith, i.place, i.begun, z, p, y)))
            ];
            full = i.full;
            blocks = i.blocks;
            lengths = i.lengths;
            block_size_eq = i.block_size_eq;
            newest = λ k p. ground arith;
            prefix = i.prefix;
            partial =
                let w : n ≡ 17 * b.block_counter = ground (arith, i.place, y) in
                rw (← w) (omega arith);
          }))
      | inr y ↦
          let positive : 0 < b.block_idx = ground (arith, y) in
          let room : ltb (b.block_idx - 1) b.block.size ≡ true =
            ground (arith, i.block_size_eq, i.small) in
          let m = n - 1 in
          let newest : b.last_length ≡ f m = i.last positive in
          let sum : total f n ≡ total f m + f m = total-pred n (omega (arith, i.place, positive)) in
          let byte : b.last_length % 2 ^ 8 ≡ f m = omega (arith, newest, bounded m) in
          let whole : (b.block_sum + b.last_length) % 2 ^ 32 ≡ b.block_sum + f m =
            omega (arith, newest, i.partial positive, sum, fits) in
          rw (y, room)
            (done (record {
              place = i.place;
              small = i.small;
              begun = omega (arith, i.place, i.begun, i.small, positive);
              offsets = λ j p. i.offsets j (omega (arith, i.place, i.small, p, positive));
              full = i.full;
              blocks = i.blocks;
              lengths = i.lengths;
              block_size_eq = i.block_size_eq;
              newest = λ k p. elim (Bool-cases (k == b.block_idx - 1)) [
                | inl z ↦
                    let w : 17 * b.block_counter + k ≡ m = ground (arith, i.place, positive, z) in
                    rw (z, w) byte
                | inr z ↦ rw z (i.newest k (ground (arith, z, p, positive)))
              ];
              prefix = i.prefix;
              partial = omega (arith, whole, i.partial positive, sum);
            }))
    ]

    check_sum_lem : (n : ℕ) (b : Builder) → Started n b → total f n < 2 ^ 32 → check_sum b ≡ some tt
    unfolding check_sum
    check_sum_lem n b s fits =
        let room : ltb b.block_counter b.block_offsets.size ≡ true = ground (arith, s.begun) in
        let offset : b.block_offsets.at b.block_counter ≡ total f (17 * b.block_counter) =
          s.offsets b.block_counter (omega (arith, s.place)) in
        let sum : (b.lengths_prefix_sum == (total f (17 * b.block_counter) + b.block_sum) % 2 ^ 32)
            ≡ true =
          ground (arith, s.partial, s.prefix, fits) in
        rw (room, offset, sum) (ground arith)

    advance_lem :
        (n l : ℕ) (b : Builder)
        → Started n b
        → f n ≡ l
        → total f n + l < 2 ^ 32
        → Built (n + 1) (advance l (keep_full b))
    unfolding keep_full
    advance_lem n l b s newest fits =
        let next : n + 1 ≡ suc n = omega arith in
        let before : n + 1 - 1 ≡ n = omega arith in
        let sum : (b.lengths_prefix_sum + l) % 2 ^ 32 ≡ total f (n + 1) =
          rw next (omega (arith, s.prefix, newest, fits)) in
        elim (Bool-cases (b.block_idx == 16)) [
          | inl y ↦
              let idx : b.block_idx ≡ 16 = ground (arith, y) in
              rw y (record {
                place = omega (arith, s.place, idx);
                small = omega arith;
                begun = omega (arith, s.begun, s.place, idx);
                offsets = λ j p. s.offsets j (omega (arith, p));
                full = omega (arith, s.full);
                blocks = λ j p. elim (Bool-cases (j == b.diff_blocks.size)) [
                  | inl z ↦ rw z s.block_size_eq
                  | inr z ↦ rw z (s.blocks j (ground (arith, z, s.full, p)))
                ];
                lengths = λ j k p q. elim (Bool-cases (j == b.diff_blocks.size)) [
                  | inl z ↦
                      let w : j ≡ b.block_counter = ground (arith, z, s.full) in
                      rw (z, w) (s.newest k (omega (arith, idx)))
                  | inr z ↦ rw z (s.lengths j k (ground (arith, z, s.full, p)) q)
                ];
                block_size_eq = s.block_size_eq;
                newest = λ k p. omega (arith, p, idx);
                last = λ p. omega (arith, p, idx);
                prefix = sum;
                partial = λ p. omega (arith, p, idx);
              })
          | inr y ↦ rw y (record {
            place = ground (arith, s.place, y, s.small);
            small = omega arith;
            begun = omega (arith, s.begun, s.place, s.small);
            offsets = λ j p. s.offsets j (omega (arith, p));
            full = s.full;
            blocks = s.blocks;
            lengths = s.lengths;
            block_size_eq = s.block_size_eq;
            newest = λ k p. s.newest k (ground (arith, y, s.small, p));
            last = λ p. rw before (sym newest);
            prefix = sum;
            partial = λ p. rw before s.partial;
          })
        ]

    push_length_lem :
        (n l : ℕ) (b : Builder)
        → Built n b
        → f n ≡ l
        → total f n + l < 2 ^ 32
        → Returns (Built (n + 1)) (push_length l b)
    unfolding push_length
    push_length_lem n l b i newest fits = Returns->>= (start_entry_lem n b i (omega arith)) (λ b' s.
        let small : leb l 255 ≡ true = ground (arith, bounded n, newest) in
        rw (check_sum_lem n b' s (omega arith), small) (done (advance_lem n l b' s newest fits)))

    pub push_lengths_lem :
        (n : ℕ) (ls : List ℕ) (b : Builder)
        → Built n b
        → ((i : ℕ) → i < length ls → f (n + i) ≡ get_or ls i 0)
        → total f (n + length ls) < 2 ^ 32
        → Returns (Built (n + length ls)) (push_lengths ls b)
    unfolding push_lengths
    push_lengths_lem n [] b i agree fits = let z : n + 0 ≡ n = omega arith in rw z (done i)
    push_lengths_lem n (l ∷ ls) b i agree fits =
        let z : n + 0 ≡ n = omega arith in
        let w : n + suc (length ls) ≡ n + 1 + length ls = omega arith in
        let newest : f n ≡ l = rw z at (agree 0 (omega arith)) in
        let t : total f (n + 1) ≡ total f n + f n =
          let v : n + 1 ≡ suc n = omega arith in rw v refl in
        rw w (
          Returns->>=
            (push_length_lem n l b i newest
              (omega (arith, total_mono f (n + 1) (length ls), t, newest, (rw w at fits))))
            (λ b' i'.
              push_lengths_lem (n + 1) ls b' i'
                (λ k p.
                  let v : n + 1 + k ≡ n + suc k = omega arith in rw v (agree (suc k) (omega arith)))
                (rw w at fits)))
