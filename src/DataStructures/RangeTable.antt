-- ===== src/DataStructures/RangeTable.antt =====
-- DataStructures/RangeTable.h: the ranges of consecutive parts of a text, given by the parts' lengths.
-- The template's BLOCK_SIZE is 16, as everywhere in the program. A block holds unsigned chars and is a
-- local array that is not cleared: `garbage` is what it holds at first. Numbers are 32-bit unsigned, and
-- the count of the lengths is taken to fit one. A `none` is an access out of range, a failed
-- BOOST_ASSERT, or fuel that is used up.
pub mod Push
pub mod Build
pub mod Lookup
pub mod Stream
mod Tests
use osrm_backend.Prelude.{
  ℕ, zero, suc, ◌+◌, ◌-◌, ◌*◌, ◌/◌, ◌%◌, ◌^◌, Bool, true, false, ◌&&◌, ◌||◌, Option, none, some,
  List, [], ◌∷◌, ltb, leb, ◌==◌, if◌then◌else◌, Array, load, store, push_back, check, length, ◌>>=◌,
  ◌>>◌,
}
use mathlib.Core.Bool.{not}

abbrev pub block_size : ℕ
block_size = 16

pub record RangeTable : Type 0 where
  pub block_offsets : Array ℕ
  pub diff_blocks : Array (Array ℕ)
  pub sum_lengths : ℕ

-- The local variables of the constructor.
pub record Builder : Type 0 where
  pub block_offsets : Array ℕ
  pub diff_blocks : Array (Array ℕ)
  pub last_length : ℕ
  pub lengths_prefix_sum : ℕ
  pub block_idx : ℕ
  pub block_counter : ℕ
  pub block : Array ℕ
  pub block_sum : ℕ

pub number_of_blocks : ℕ → ℕ
number_of_blocks count =
    let num = (count + 1) / (block_size + 1) in
    if not ((count + 1) % (block_size + 1) == 0) then num + 1 else num

-- `(block_idx + 1) % (BLOCK_SIZE + 1)`
abbrev pub next_idx : ℕ → ℕ
next_idx block_idx = (block_idx + 1) % (block_size + 1)

-- The start of the loop's body: an absolute offset, or the length before.
pub start_entry : Builder → Option Builder
start_entry b =
    let write = do
      block ← store b.block (b.block_idx - 1) (b.last_length % 2 ^ 8)
      some (record b { block = block; block_sum = (b.block_sum + b.last_length) % 2 ^ 32 })
    in if b.block_idx == 0
      then some (record b {
        block_offsets = push_back b.block_offsets b.lengths_prefix_sum;
        block_sum = 0;
      })
      else write

pub check_sum : Builder → Option (Unit {0})
check_sum b = do
  offset ← load b.block_offsets b.block_counter
  check (
      (b.block_idx == 0 && offset == b.lengths_prefix_sum)
      || b.lengths_prefix_sum == (offset + b.block_sum) % 2 ^ 32)

pub keep_full : Builder → Builder
keep_full b =
    if b.block_idx == block_size
    then record b {
      diff_blocks = push_back b.diff_blocks b.block;
      block_counter = b.block_counter + 1;
    }
    else b

abbrev pub advance : ℕ → Builder → Builder
advance l b = record b {
  lengths_prefix_sum = (b.lengths_prefix_sum + l) % 2 ^ 32;
  last_length = l;
  block_idx = next_idx b.block_idx;
}

-- The body of the loop over the lengths.
pub push_length : ℕ → Builder → Option Builder
push_length l b = do
  started ← start_entry b
  check_sum started
  let kept = keep_full started
  check (leb l 255)
  some (advance l kept)

pub push_lengths : List ℕ → Builder → Option Builder
push_lengths [] b = some b
push_lengths (l ∷ ls) b = do b' ← push_length l b; push_lengths ls b'

-- `if (0 == block_idx)`: the guard value.
pub add_guard : Builder → Builder
add_guard b =
    if b.block_idx == 0
    then record b {
      block_offsets = push_back b.block_offsets b.lengths_prefix_sum;
      block_idx = 1;
      last_length = 0;
    }
    else b

-- `while (0 != block_idx)`
pub pad : ℕ → ℕ → ℕ → Array ℕ → Option (Array ℕ)
pad zero block_idx last_length block = if block_idx == 0 then some block else none
pad (suc fuel) block_idx last_length block =
    let more = do
      written ← store block (block_idx - 1) (last_length % 2 ^ 8)
      pad fuel (next_idx block_idx) 0 written
    in if block_idx == 0 then some block else more

pub empty_builder : (ℕ → ℕ) → Builder
empty_builder garbage = record {
  block_offsets = record { size = 0; at = λ _. 0 };
  diff_blocks = record { size = 0; at = λ _. record { size = block_size; at = λ _. 0 } };
  last_length = 0;
  lengths_prefix_sum = 0;
  block_idx = 0;
  block_counter = 0;
  block = record { size = block_size; at = garbage };
  block_sum = 0;
}

-- What follows the loop.
pub finish : ℕ → Builder → Option RangeTable
finish blocks b = do
  check (b.block_counter == blocks - 1)
  let guarded = add_guard b
  block ← pad block_size guarded.block_idx guarded.last_length guarded.block
  let diff_blocks = push_back guarded.diff_blocks block
  check (diff_blocks.size == blocks && guarded.block_offsets.size == blocks)
  some (record {
    block_offsets = guarded.block_offsets;
    diff_blocks = diff_blocks;
    sum_lengths = guarded.lengths_prefix_sum;
  })

-- The constructor from the lengths.
pub new_table : (ℕ → ℕ) → List ℕ → Option RangeTable
new_table garbage lengths = do
  built ← push_lengths lengths (empty_builder garbage)
  finish (number_of_blocks (length lengths)) built

-- The rest of PrefixSumAtIndex's loop: `n` rounds from `i` on.
pub sum_from : ℕ → ℕ → ℕ → Array ℕ → Option ℕ
sum_from zero i sum block = some sum
sum_from (suc n) i sum block = do l ← load block i; sum_from n (i + 1) ((sum + l) % 2 ^ 32) block

pub prefix_sum_at_index : ℕ → Array ℕ → Option ℕ
prefix_sum_at_index index block = sum_from (index + 1) 0 0 block

pub begin_of : ℕ → ℕ → Array ℕ → Option ℕ
begin_of internal_idx offset block =
    let add = do sum ← prefix_sum_at_index (internal_idx - 1) block; some ((offset + sum) % 2 ^ 32)
    in if ltb 0 internal_idx then add else some offset

pub end_of : ℕ → ℕ → ℕ → Array ℕ → Array ℕ → Option ℕ
end_of internal_idx block_idx begin_idx block block_offsets =
    let inside = do l ← load block internal_idx; some ((begin_idx + l) % 2 ^ 32)
    in let next = do
      check (ltb block_idx (block_offsets.size - 1))
      load block_offsets (block_idx + 1)
      in if ltb internal_idx block_size then inside else next

pub get_range : ℕ → RangeTable → Option (ℕ × ℕ)
get_range id t = do
  check (ltb id (t.block_offsets.size + t.diff_blocks.size * block_size))
  let internal_idx = id % (block_size + 1)
  let block_idx = id / (block_size + 1)
  check (ltb block_idx t.diff_blocks.size)
  offset ← load t.block_offsets block_idx
  block ← load t.diff_blocks block_idx
  begin_idx ← begin_of internal_idx offset block
  end_idx ← end_of internal_idx block_idx begin_idx block t.block_offsets
  check (ltb begin_idx t.sum_lengths && leb end_idx t.sum_lengths)
  check (leb begin_idx end_idx)
  some (begin_idx, end_idx)
