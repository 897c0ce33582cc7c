-- ===== src/DataStructures/RangeTable/Stream.antt =====
-- The stream operators of RangeTable. A stream is the list of its bytes, and an unsigned its four bytes,
-- the lowest first. A `none` is a stream that ends too soon.
use osrm_backend.Prelude.{
  ℕ, zero, suc, ◌+◌, ◌*◌, ◌/◌, ◌%◌, ◌^◌, ◌≤◌, ◌<◌, ◌≡◌, refl, ◌∙◌, sym, Option, none, some, List,
  [], ◌∷◌, ◌++◌, arith, ◌==◌, Array, update, get_or, length, Returns, done, Returns-weaken,
  Returns->>=, Bool-cases, inl, inr, ◌>>=◌,
}
use mathlib.Core.List.{append_assoc}
use mathlib.Core.Path.{subst}
use osrm_backend.DataStructures.RangeTable.{RangeTable, block_size, new_table, get_range}
use osrm_backend.DataStructures.RangeTable.Push.{total}
use osrm_backend.DataStructures.RangeTable.Build.{Describes, new_table_lem}
use osrm_backend.DataStructures.RangeTable.Lookup.{total_le, Describes-get_range}

abbrev pub word_bytes : ℕ → List ℕ
word_bytes w = w % 256 ∷ w / 256 % 256 ∷ w / 65536 % 256 ∷ w / 16777216 % 256 ∷ []

abbrev pub read_word : List ℕ → Option (ℕ × List ℕ)
read_word [] = none
read_word (a ∷ []) = none
read_word (a ∷ b ∷ []) = none
read_word (a ∷ b ∷ c ∷ []) = none
read_word (a ∷ b ∷ c ∷ d ∷ rest) = some (a + 256 * b + 65536 * c + 16777216 * d, rest)

abbrev pub read_byte : List ℕ → Option (ℕ × List ℕ)
read_byte [] = none
read_byte (a ∷ rest) = some (a, rest)

-- Elements of an array: `n` of them, from `i` on.
pub write_from : {A : Type 0} → (A → List ℕ) → ℕ → ℕ → Array A → List ℕ
write_from bytes zero i a = []
write_from bytes (suc n) i a = bytes (a.at i) ++ write_from bytes n (i + 1) a

pub read_from :
    {A : Type 0}
    → (List ℕ → Option (A × List ℕ))
    → ℕ
    → ℕ
    → Array A
    → List ℕ
    → Option (Array A × List ℕ)
read_from read zero i a stream = some (a, stream)
read_from read (suc n) i a stream = do
  (x, rest) ← read stream
  read_from read n (i + 1) (record { size = a.size; at = update a.at i x }) rest

pub write_block : Array ℕ → List ℕ
write_block block = write_from (λ b. b ∷ []) block_size 0 block

pub read_block : List ℕ → Option (Array ℕ × List ℕ)
read_block stream =
    read_from read_byte block_size 0 (record { size = block_size; at = λ _. 0 }) stream

pub write_table : RangeTable → List ℕ
write_table t =
    word_bytes t.diff_blocks.size
    ++ (word_bytes t.sum_lengths
        ++ (write_from word_bytes t.block_offsets.size 0 t.block_offsets
            ++ write_from write_block t.diff_blocks.size 0 t.diff_blocks))

pub read_table : List ℕ → Option (RangeTable × List ℕ)
read_table stream = do
  (number_of_blocks, a) ← read_word stream
  (sum_lengths, b) ← read_word a
  (offsets, c) ←
      read_from read_word number_of_blocks 0 (record { size = number_of_blocks; at = λ _. 0 }) b
  (blocks, d) ←
      read_from read_block number_of_blocks 0
        (record { size = number_of_blocks; at = λ _. record { size = block_size; at = λ _. 0 } }) c
  some (record { block_offsets = offsets; diff_blocks = blocks; sum_lengths = sum_lengths }, d)

word_bytes_lem :
    (w : ℕ)
    → w < 2 ^ 32
    → w % 256 + 256 * (w / 256 % 256) + 65536 * (w / 65536 % 256) + 16777216 * (w / 16777216 % 256)
      ≡ w
word_bytes_lem w p = omega (arith, p)

-- Elements that are read back, up to a relation, are read back as an array.
read_from-write_from :
    {A : Type 0} (bytes : A → List ℕ) (read : List ℕ → Option (A × List ℕ)) (Same : A → A → Type 0)
    (n i : ℕ) (a b : Array A) (rest : List ℕ)
    → ((j : ℕ) (more : List ℕ)
        → i ≤ j
        → j < i + n
        → Returns (λ r. Same (a.at j) r.0 × (r.1 ≡ more)) (read (bytes (a.at j) ++ more)))
    → Returns
        (λ r.
          (r.0.size ≡ b.size)
          × (r.1 ≡ rest)
          × ((j : ℕ) → j < i → r.0.at j ≡ b.at j)
          × ((j : ℕ) → i ≤ j → j < i + n → Same (a.at j) (r.0.at j)))
        (read_from read n i b (write_from bytes n i a ++ rest))
unfolding read_from write_from
read_from-write_from bytes read Same zero i a b rest h =
    done (refl, refl, (λ j p. refl), (λ j p q. absurd (omega (arith, p, q))))
read_from-write_from bytes read Same (suc n) i a b rest h =
    rw (append_assoc (bytes (a.at i)) (write_from bytes n (i + 1) a) rest) (
      Returns->>= (h i (write_from bytes n (i + 1) a ++ rest) (omega arith) (omega arith))
        (λ (x, s) (same, left). rw left (
          Returns-weaken
            (read_from-write_from bytes read Same n (i + 1) a
              (record { size = b.size; at = update b.at i x }) rest
              (λ j more p q. h j more (omega arith) (omega arith)))
            (λ r (size, end, before, there). (
              size,
              end,
              (λ j p. before j (omega arith) ∙ ground (arith, p)),
              λ j p q. elim (Bool-cases (j == i)) [
                | inl y ↦
                    let q : j ≡ i = ground (arith, y) in
                    let newest : r.0.at i ≡ x = before i (omega arith) ∙ ground arith in
                    rw (q, newest) same
                | inr y ↦ there j (ground (arith, y, p)) (omega arith)
              ],
            )))))

-- Blocks with the same bytes.
abbrev SameBlock : Array ℕ → Array ℕ → Type 0
SameBlock a b = (b.size ≡ 16) × ((k : ℕ) → k < 16 → b.at k ≡ a.at k)

read_block-write_block :
    (block : Array ℕ) (rest : List ℕ)
    → Returns (λ r. SameBlock block r.0 × (r.1 ≡ rest)) (read_block (write_block block ++ rest))
unfolding read_block write_block
read_block-write_block block rest =
    Returns-weaken
      (read_from-write_from (λ b. b ∷ []) read_byte (λ x y. y ≡ x) 16 0 block
        (record { size = 16; at = λ _. 0 }) rest (λ j more p q. done (refl, refl)))
      (λ r (size, end, before, there).
        ((size, λ k p. there k (omega arith) (omega (arith, p))), end))

pub record SameTable (t t' : RangeTable) : Type 0 where
  pub sum : t'.sum_lengths ≡ t.sum_lengths
  pub offsets_size : t'.block_offsets.size ≡ t.block_offsets.size
  pub blocks_size : t'.diff_blocks.size ≡ t.diff_blocks.size
  pub offsets : (j : ℕ) → j < t.block_offsets.size → t'.block_offsets.at j ≡ t.block_offsets.at j
  pub blocks :
      (j : ℕ) → j < t.diff_blocks.size → SameBlock (t.diff_blocks.at j) (t'.diff_blocks.at j)

-- Reading `m` offsets of the table.
abbrev OffsetsRead : RangeTable → List ℕ → ℕ → Type 0
OffsetsRead t rest m =
    Returns
      (λ r.
        (r.0.size ≡ m)
        × (r.1 ≡ rest)
        × ((j : ℕ) → j < t.block_offsets.size → r.0.at j ≡ t.block_offsets.at j))
      (read_from read_word m 0 (record { size = m; at = λ _. 0 })
        (write_from word_bytes t.block_offsets.size 0 t.block_offsets ++ rest))

offsets_read :
    (t : RangeTable) (rest : List ℕ)
    → ((j : ℕ) → j < t.block_offsets.size → t.block_offsets.at j < 2 ^ 32)
    → OffsetsRead t rest t.block_offsets.size
offsets_read t rest fits =
    Returns-weaken
      (read_from-write_from word_bytes read_word (λ x y. y ≡ x) t.block_offsets.size 0
        t.block_offsets (record { size = t.block_offsets.size; at = λ _. 0 }) rest
        (λ j more p q.
          rw (word_bytes_lem (t.block_offsets.at j) (fits j (omega (arith, q))))
            (done (refl, refl))))
      (λ r (size, end, before, there). (size, end, λ j p. there j (omega arith) (omega (arith, p))))

read_table-write_table :
    (t : RangeTable) (rest : List ℕ)
    → t.block_offsets.size ≡ t.diff_blocks.size
    → t.diff_blocks.size < 2 ^ 32
    → t.sum_lengths < 2 ^ 32
    → ((j : ℕ) → j < t.block_offsets.size → t.block_offsets.at j < 2 ^ 32)
    → Returns (λ r. SameTable t r.0 × (r.1 ≡ rest)) (read_table (write_table t ++ rest))
unfolding read_table write_table
read_table-write_table t rest sizes few sum fits =
    let n = t.diff_blocks.size in
    let offsets = write_from word_bytes t.block_offsets.size 0 t.block_offsets in
    let blocks = write_from write_block n 0 t.diff_blocks in
    rw (append_assoc offsets blocks rest, word_bytes_lem n few, word_bytes_lem t.sum_lengths sum)
      (Returns->>=
        (subst (OffsetsRead t (blocks ++ rest)) sizes (offsets_read t (blocks ++ rest) fits))
        (λ (array, s) (size, end, there). rw end (
          Returns->>=
            (read_from-write_from write_block read_block SameBlock n 0 t.diff_blocks
              (record { size = n; at = λ _. record { size = 16; at = λ _. 0 } }) rest
              (λ j more p q. read_block-write_block (t.diff_blocks.at j) more))
            (λ r (size', end', before', there'). done (
              record {
                sum = refl;
                offsets_size = size ∙ sym sizes;
                blocks_size = size';
                offsets = λ j p. there j p;
                blocks = λ j p. there' j (omega arith) (omega (arith, p));
              },
              end',
            )))))

Describes-SameTable :
    (f : ℕ → ℕ) (n : ℕ) (t t' : RangeTable) → Describes f n t → SameTable t t' → Describes f n t'
Describes-SameTable f n t t' d s = record {
  offsets_size = s.offsets_size ∙ d.offsets_size;
  blocks_size = s.blocks_size ∙ d.blocks_size;
  offsets = λ j p. s.offsets j (omega (arith, p, d.offsets_size)) ∙ d.offsets j p;
  blocks = λ j p. (s.blocks j (omega (arith, p, d.blocks_size))).0;
  lengths = λ j k p q r. (s.blocks j (omega (arith, p, d.blocks_size))).1 k q ∙ d.lengths j k p q r;
  sum = s.sum ∙ d.sum;
}

-- A table of fewer than 2 ^ 32 lengths up to 255 whose sum fits 32 bits is read back from what the
-- operator writes, whatever follows in the stream, as a table with the same answers of GetRange.
pub read_table-new_table :
    (garbage : ℕ → ℕ) (ls rest : List ℕ)
    → ((i : ℕ) → get_or ls i 0 ≤ 255)
    → length ls < 2 ^ 32
    → total (λ i. get_or ls i 0) (length ls) < 2 ^ 32
    → Returns
        (λ t.
          Returns
            (λ r. ((i : ℕ) → i < length ls → get_range i r.0 ≡ get_range i t) × (r.1 ≡ rest))
            (read_table (write_table t ++ rest)))
        (new_table garbage ls)
read_table-new_table garbage ls rest bounded few fits =
    let f : ℕ → ℕ = λ i. get_or ls i 0 in
    let n = length ls in
    Returns-weaken (new_table_lem garbage ls bounded fits) (λ t d.
      let low : (j : ℕ) → j < t.block_offsets.size → t.block_offsets.at j < 2 ^ 32 = λ j p. omega (
        arith,
        d.offsets j (omega (arith, p, d.offsets_size)),
        total_le f (17 * j) n (omega (arith, p, d.offsets_size)),
        fits,
      ) in
      Returns-weaken
        (read_table-write_table t rest (omega (arith, d.offsets_size, d.blocks_size))
          (omega (arith, d.blocks_size, few)) (omega (arith, d.sum, fits)) low)
        (λ r (same, end). (
          (λ i p.
              Describes-get_range f n r.0 (Describes-SameTable f n t r.0 d same) fits i p
              ∙ sym (Describes-get_range f n t d fits i p)),
          end,
        )))
