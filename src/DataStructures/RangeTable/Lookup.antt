-- ===== src/DataStructures/RangeTable/Lookup.antt =====
-- GetRange on a constructed table.
use osrm_backend.Prelude.{
  ℕ, zero, suc, ◌+◌, ◌-◌, ◌*◌, ◌/◌, ◌%◌, ◌^◌, ◌≤◌, ◌<◌, ◌≡◌, refl, ◌∙◌, ap, true, none, some, List,
  arith, ltb, leb, if◌then◌else◌, Array, length, get_or, Returns, done, Returns-weaken, Returns->>=,
  value_of, Bool-cases, inl, inr,
}
use osrm_backend.DataStructures.RangeTable.{
  RangeTable, new_table, sum_from, prefix_sum_at_index, begin_of, end_of, get_range,
}
use osrm_backend.DataStructures.RangeTable.Push.{total, total_mono}
use osrm_backend.DataStructures.RangeTable.Build.{Describes, new_table_lem}

module _ (f : ℕ → ℕ) where
  total-suc : (n m : ℕ) → m ≡ n + 1 → total f m ≡ total f n + f n
  total-suc n m p = let z : m ≡ suc n = omega (arith, p) in rw z refl

  pub total_le : (m n : ℕ) → m ≤ n → total f m ≤ total f n
  total_le m n p = let z : n ≡ m + (n - m) = omega (arith, p) in rw z (total_mono f m (n - m))

  -- Lengths of a block that begins with the length `base`.
  sum_from_lem :
      (base n i sum : ℕ) (block : Array ℕ)
      → block.size ≡ 16
      → i + n ≤ 16
      → ((k : ℕ) → k < i + n → block.at k ≡ f (base + k))
      → sum + total f (base + i + n) < 2 ^ 32 + total f (base + i)
      → Returns
          (λ r. r + total f (base + i) ≡ sum + total f (base + i + n))
          (sum_from n i sum block)
  unfolding sum_from
  sum_from_lem base zero i sum block size inside agree fits =
      let z : base + i + 0 ≡ base + i = omega arith in done (rw z refl)
  sum_from_lem base (suc n) i sum block size inside agree fits =
      let room : ltb i block.size ≡ true = ground (arith, size, inside) in
      let here : block.at i ≡ f (base + i) = agree i (omega arith) in
      let next : total f (base + (i + 1)) ≡ total f (base + i) + f (base + i) =
        total-suc (base + i) (base + (i + 1)) (omega arith) in
      let z : base + i + suc n ≡ base + (i + 1) + n = omega arith in
      let some_fits : sum + total f (base + (i + 1) + n) < 2 ^ 32 + total f (base + i) =
        rw z at fits in
      let least : total f (base + (i + 1)) ≤ total f (base + (i + 1) + n) =
        total_mono f (base + (i + 1)) n in
      let exact : (sum + f (base + i)) % 2 ^ 32 ≡ sum + f (base + i) =
        omega (arith, some_fits, next, least) in
      rw (room, here, exact)
        (Returns-weaken
          (sum_from_lem base n (i + 1) (sum + f (base + i)) block size (omega arith)
            (λ k p. agree k (omega arith)) (omega (arith, some_fits, next)))
          (λ r adds. rw z (omega (arith, adds, next))))

  begin_of_lem :
      (i : ℕ) (block : Array ℕ)
      → block.size ≡ 16
      → ((k : ℕ) → k < i % 17 → block.at k ≡ f (17 * (i / 17) + k))
      → total f i < 2 ^ 32
      → Returns (λ b. b ≡ total f i) (begin_of (i % 17) (total f (17 * (i / 17))) block)
  unfolding begin_of prefix_sum_at_index
  begin_of_lem i block size agree fits = elim (Bool-cases (ltb 0 (i % 17))) [
    | inl y ↦
        let base = 17 * (i / 17) in
        let m = i % 17 in
        let count : m - 1 + 1 ≡ m = ground (arith, y) in
        let whole : base + 0 + m ≡ i = omega arith in
        let first : base + 0 ≡ base = omega arith in
        rw (y, count)
          (Returns->>=
            (sum_from_lem base m 0 0 block size (omega arith) (λ k p. agree k (omega (arith, p)))
              (rw (whole, first) (omega (arith, fits))))
            (λ r adds.
              let sum : r + total f base ≡ 0 + total f i = rw (whole, first) at adds in
              done (omega (arith, sum, fits))))
    | inr y ↦ let w : 17 * (i / 17) ≡ i = ground (arith, y) in rw (y, w) (done refl)
  ]

  end_of_lem :
      (i n : ℕ) (t : RangeTable)
      → Describes f n t
      → i < n
      → total f n < 2 ^ 32
      → end_of (i % 17) (i / 17) (total f i) (t.diff_blocks.at (i / 17)) t.block_offsets
        ≡ some (total f (i + 1))
  unfolding end_of
  end_of_lem i n t d real fits =
      let next : total f (i + 1) ≡ total f i + f i = total-suc i (i + 1) refl in
      let least : total f (i + 1) ≤ total f n = total_le (i + 1) n (omega arith) in
      let q = i / 17 in
      elim (Bool-cases (ltb (i % 17) 16)) [
        | inl y ↦
            let room : ltb (i % 17) (t.diff_blocks.at q).size ≡ true =
              ground (arith, d.blocks q (omega arith), y) in
            let w : 17 * q + i % 17 ≡ i = omega arith in
            let here : (t.diff_blocks.at q).at (i % 17) ≡ f i =
              d.lengths q (i % 17) (omega arith) (ground (arith, y)) (omega (arith, w))
              ∙ rw w refl in
            let exact : (total f i + f i) % 2 ^ 32 ≡ total f (i + 1) =
              omega (arith, next, least, fits) in
            rw (y, room, here, exact) refl
        | inr y ↦
            let w : i + 1 ≡ 17 * (q + 1) = ground (arith, y) in
            let a : ltb q (t.block_offsets.size - 1) ≡ true =
              ground (arith, d.offsets_size, w, real) in
            let b : ltb (q + 1) t.block_offsets.size ≡ true =
              ground (arith, d.offsets_size, w, real) in
            rw (y, a, b, w) (ap some (d.offsets (q + 1) (omega (arith, w, real))))
      ]

  pub Describes-get_range :
      (n : ℕ) (t : RangeTable)
      → Describes f n t
      → total f n < 2 ^ 32
      → (i : ℕ) → i < n
      → get_range i t
        ≡ (if ltb (total f i) (total f n) then some (total f i, total f (i + 1)) else none)
  unfolding get_range
  Describes-get_range n t d fits i real =
      let q = i / 17 in
      let a : ltb i (t.block_offsets.size + t.diff_blocks.size * 16) ≡ true =
        ground (arith, d.offsets_size, d.blocks_size, real) in
      let b : ltb q t.diff_blocks.size ≡ true = ground (arith, d.blocks_size, real) in
      let c : ltb q t.block_offsets.size ≡ true = ground (arith, d.offsets_size, real) in
      let offset : t.block_offsets.at q ≡ total f (17 * q) = d.offsets q (omega arith) in
      let least : total f i ≤ total f n = total_le i n (omega arith) in
      let (begin, begins, exact) = value_of (
        begin_of_lem i (t.diff_blocks.at q) (d.blocks q (omega arith))
          (λ k p. d.lengths q k (omega arith) (omega (arith, p)) (omega (arith, p)))
          (omega (arith, least, fits))) in
      let step : total f (i + 1) ≡ total f i + f i = total-suc i (i + 1) refl in
      let last : leb (total f (i + 1)) (total f n) ≡ true =
        ground (arith, total_le (i + 1) n (omega arith)) in
      let up : leb (total f i) (total f (i + 1)) ≡ true = ground (arith, step) in
      rw (a, b, c, offset, begins, exact, end_of_lem i n t d real fits, d.sum, last, up)
        (ground arith)

-- The constructor does not fail on lengths up to 255 whose sum fits 32 bits, and GetRange of a part
-- then returns the sum of the lengths before it and the sum with its own. It fails where the first
-- sum is that of all lengths, as for an empty part at the end.
pub get_range-new_table :
    (garbage : ℕ → ℕ) (ls : List ℕ)
    → ((i : ℕ) → get_or ls i 0 ≤ 255)
    → total (λ i. get_or ls i 0) (length ls) < 2 ^ 32
    → Returns
        (λ t.
          (i : ℕ)
          → i < length ls
          → get_range i t ≡ (
              if ltb (total (λ i. get_or ls i 0) i) (total (λ i. get_or ls i 0) (length ls))
              then some (total (λ i. get_or ls i 0) i, total (λ i. get_or ls i 0) (i + 1))
              else none))
        (new_table garbage ls)
get_range-new_table garbage ls bounded fits =
    Returns-weaken (new_table_lem garbage ls bounded fits)
      (λ t d. Describes-get_range (λ i. get_or ls i 0) (length ls) t d fits)
