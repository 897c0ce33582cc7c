-- ===== src/DataStructures/RangeTable/Build.antt =====
-- The constructor of RangeTable.
use osrm_backend.Prelude.{
  ℕ, zero, suc, ◌+◌, ◌-◌, ◌*◌, ◌/◌, ◌%◌, ◌^◌, ◌≤◌, ◌<◌, ◌≡◌, ◌≢◌, refl, ◌∙◌, true, false, ◌&&◌,
  List, arith, ltb, ◌==◌, Array, push_back, update, length, get_or, Returns, done, Returns-weaken,
  Returns->>=, Bool-cases, inl, inr,
}
use osrm_backend.DataStructures.RangeTable.{
  RangeTable, Builder, number_of_blocks, add_guard, pad, finish, empty_builder, new_table,
}
use osrm_backend.DataStructures.RangeTable.Push.{total, Built, push_lengths_lem}

-- What the table of `n` lengths holds.
pub record Describes (f : ℕ → ℕ) (n : ℕ) (t : RangeTable) : Type 0 where
  pub offsets_size : t.block_offsets.size ≡ n / 17 + 1
  pub blocks_size : t.diff_blocks.size ≡ n / 17 + 1
  pub offsets : (j : ℕ) → j < n / 17 + 1 → t.block_offsets.at j ≡ total f (17 * j)
  pub blocks : (j : ℕ) → j < n / 17 + 1 → (t.diff_blocks.at j).size ≡ 16
  pub lengths :
      (j k : ℕ)
      → j < n / 17 + 1
      → k < 16
      → 17 * j + k < n
      → (t.diff_blocks.at j).at k ≡ f (17 * j + k)
  pub sum : t.sum_lengths ≡ total f n

number_of_blocks_lem : (n : ℕ) → number_of_blocks n ≡ n / 17 + 1
unfolding number_of_blocks
number_of_blocks_lem n = ground arith

-- The padding leaves what stands before it.
pad_lem :
    (fuel idx last : ℕ) (block : Array ℕ)
    → idx < 17
    → (idx ≢ 0 → 17 ≤ idx + fuel)
    → block.size ≡ 16
    → Returns
        (λ b.
          (b.size ≡ 16)
          × ((k : ℕ) → (idx ≢ 0 → k + 1 < idx) → b.at k ≡ block.at k)
          × (0 < idx → b.at (idx - 1) ≡ last % 2 ^ 8))
        (pad fuel idx last block)
unfolding pad
pad_lem zero idx last block small enough size =
    let z : (idx == 0) ≡ true = ground (arith, enough) in
    rw z (done (size, λ k p. refl, λ p. ground (arith, z)))
pad_lem (suc fuel) idx last block small enough size = elim (Bool-cases (idx == 0)) [
  | inl y ↦ rw y (done (size, λ k p. refl, λ p. ground (arith, y)))
  | inr y ↦
      let room : ltb (idx - 1) block.size ≡ true = ground (arith, y, size) in
      rw (y, room)
        (Returns-weaken
          (pad_lem fuel ((idx + 1) % 17) 0
            (record block { at = update block.at (idx - 1) (last % 2 ^ 8) }) (omega arith)
            (λ q. ground (arith, q, enough, y, small)) size)
          (λ b (s, kept, newest). (
            s,
            λ k p.
                let other : (k == idx - 1) ≡ false = ground (arith, p, y) in
                kept k (λ q. ground (arith, p, y, small, q)) ∙ rw other refl,
            λ p.
                let same : (idx - 1 == idx - 1) ≡ true = ground arith in
                kept (idx - 1) (λ q. omega (arith, p, small, q)) ∙ rw same refl,
          )))
]

empty_builder_lem : (f garbage : ℕ → ℕ) → Built f 0 (empty_builder garbage)
unfolding empty_builder
empty_builder_lem f garbage = record {
  place = refl;
  small = omega arith;
  begun = refl;
  offsets = λ j p. ground (arith, p);
  full = refl;
  blocks = λ j p. ground (arith, p);
  lengths = λ j k p q. ground (arith, p);
  block_size_eq = refl;
  newest = λ k p. ground (arith, p);
  last = λ p. ground (arith, p);
  prefix = refl;
  partial = λ p. refl;
}

module _ (f : ℕ → ℕ) (n : ℕ) (bounded : (i : ℕ) → f i ≤ 255) where
  -- The builder after the guard: the last block has begun, and `idx` of its entries are not padded.
  record Guarded (b : Builder) : Type 0 where
    counter : b.block_counter ≡ n / 17
    idx_lt : b.block_idx < 17
    idx_pos : 0 < b.block_idx
    begun : b.block_offsets.size ≡ n / 17 + 1
    offsets : (j : ℕ) → j < n / 17 + 1 → b.block_offsets.at j ≡ total f (17 * j)
    full : b.diff_blocks.size ≡ n / 17
    blocks : (j : ℕ) → j < n / 17 → (b.diff_blocks.at j).size ≡ 16
    lengths : (j k : ℕ) → j < n / 17 → k < 16 → (b.diff_blocks.at j).at k ≡ f (17 * j + k)
    block_size_eq : b.block.size ≡ 16
    newest :
        (block : Array ℕ)
        → ((k : ℕ) → k + 1 < b.block_idx → block.at k ≡ b.block.at k)
        → block.at (b.block_idx - 1) ≡ b.last_length % 2 ^ 8
        → (k : ℕ) → 17 * (n / 17) + k < n
        → block.at k ≡ f (17 * (n / 17) + k)
    prefix : b.lengths_prefix_sum ≡ total f n

  add_guard_lem : (b : Builder) → Built f n b → Guarded (add_guard b)
  unfolding add_guard
  add_guard_lem b i =
      let counter : b.block_counter ≡ n / 17 = omega (arith, i.place, i.small) in
      elim (Bool-cases (b.block_idx == 0)) [
        | inl y ↦
            let w : n ≡ 17 * (n / 17) = ground (arith, i.place, y) in
            rw y (record {
              counter = counter;
              idx_lt = omega arith;
              idx_pos = omega arith;
              begun = omega (arith, i.begun, w);
              offsets = λ j p. elim (Bool-cases (j == b.block_offsets.size)) [
                | inl z ↦ let v : n ≡ 17 * j = ground (arith, i.begun, z, w) in rw (z, ← v) i.prefix
                | inr z ↦ rw z (i.offsets j (ground (arith, i.begun, z, p, w)))
              ];
              full = i.full ∙ counter;
              blocks = λ j p. i.blocks j (omega (arith, counter));
              lengths = λ j k p q. i.lengths j k (omega (arith, counter)) q;
              block_size_eq = i.block_size_eq;
              newest = λ block kept last k p. omega (arith, w, p);
              prefix = i.prefix;
            })
        | inr y ↦ rw y (record {
          counter = counter;
          idx_lt = i.small;
          idx_pos = ground (arith, y);
          begun = ground (arith, i.begun, i.place, i.small, y);
          offsets = λ j p. i.offsets j (ground (arith, i.place, p, y, counter));
          full = i.full ∙ counter;
          blocks = λ j p. i.blocks j (omega (arith, counter));
          lengths = λ j k p q. i.lengths j k (omega (arith, counter)) q;
          block_size_eq = i.block_size_eq;
          newest = λ block kept last k p. elim (Bool-cases (k == b.block_idx - 1)) [
            | inl z ↦
                let a : k ≡ b.block_idx - 1 = ground (arith, z) in
                let v : 17 * (n / 17) + k ≡ n - 1 =
                  omega (arith, i.place, a, counter, i.small, p) in
                let u : b.last_length ≡ f (n - 1) = i.last (ground (arith, y)) in
                rw (v, a) (omega (arith, last, u, bounded (n - 1)))
            | inr z ↦
                let a : k + 1 < b.block_idx = ground (arith, z, i.place, counter, p, y) in
                kept k a ∙ (rw (← counter) (i.newest k a))
          ];
          prefix = i.prefix;
        })
      ]

  finish_lem : (b : Builder) → Built f n b → Returns (Describes f n) (finish (number_of_blocks n) b)
  unfolding finish
  finish_lem b i =
      let g = add_guard_lem b i in
      let count : (b.block_counter == number_of_blocks n - 1) ≡ true =
        rw (number_of_blocks_lem n) (ground (arith, i.place, i.small)) in
      rw count (
        Returns->>=
          (pad_lem 16 (add_guard b).block_idx (add_guard b).last_length (add_guard b).block g.idx_lt
            (λ q. omega (arith, g.idx_pos)) g.block_size_eq)
          (λ block (size, kept, last).
            let sizes : ((add_guard b).diff_blocks.size + 1 == number_of_blocks n
                  && (add_guard b).block_offsets.size == number_of_blocks n)
                ≡ true =
              rw (number_of_blocks_lem n) (ground (arith, g.full, g.begun)) in
            rw sizes (
              done
                (described (add_guard b) g block size (λ k p. kept k (λ q. p)) (last g.idx_pos)))))
    where
      described :
          (b : Builder)
          → Guarded b
          → (block : Array ℕ) → block.size ≡ 16
          → ((k : ℕ) → k + 1 < b.block_idx → block.at k ≡ b.block.at k)
          → block.at (b.block_idx - 1) ≡ b.last_length % 2 ^ 8
          → Describes f n (record {
            block_offsets = b.block_offsets;
            diff_blocks = push_back b.diff_blocks block;
            sum_lengths = b.lengths_prefix_sum;
          })
      described b g block size kept last = record {
        offsets_size = g.begun;
        blocks_size = omega (arith, g.full);
        offsets = g.offsets;
        blocks = λ j p. elim (Bool-cases (j == b.diff_blocks.size)) [
          | inl z ↦ rw z size
          | inr z ↦ rw z (g.blocks j (ground (arith, z, g.full, p)))
        ];
        lengths = λ j k p q r. elim (Bool-cases (j == b.diff_blocks.size)) [
          | inl z ↦
              let w : j ≡ n / 17 = ground (arith, z, g.full) in
              rw (z, w) (g.newest block kept last k (omega (arith, w, r)))
          | inr z ↦ rw z (g.lengths j k (ground (arith, z, g.full, p)) q)
        ];
        sum = g.prefix;
      }

pub new_table_lem :
    (garbage : ℕ → ℕ) (ls : List ℕ)
    → ((i : ℕ) → get_or ls i 0 ≤ 255)
    → total (λ i. get_or ls i 0) (length ls) < 2 ^ 32
    → Returns (Describes (λ i. get_or ls i 0) (length ls)) (new_table garbage ls)
unfolding new_table
new_table_lem garbage ls bounded fits =
    let f : ℕ → ℕ = λ i. get_or ls i 0 in
    let z : 0 + length ls ≡ length ls = omega arith in
    Returns->>=
      (push_lengths_lem f bounded 0 ls (empty_builder garbage) (empty_builder_lem f garbage)
        (λ i p. let w : 0 + i ≡ i = omega arith in rw w refl) (rw z fits))
      (λ b i. finish_lem f (length ls) bounded b (rw z at i))
