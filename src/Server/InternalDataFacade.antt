-- ===== src/Server/InternalDataFacade.antt =====
-- Server/DataStructures/InternalDataFacade.h: the geometries of compressed edges, as they are loaded
-- from the file that the geometry compressor writes, and looked up.
-- A file is the list of its unsigned numbers. A `none` is a file that ends too soon, a failed
-- BOOST_ASSERT, an index that `at` does not find, or a range that is none.
pub mod Load
mod Tests
use osrm_backend.Prelude.{
  ℕ, zero, suc, ◌+◌, ◌-◌, Bool, true, false, ◌&&◌, Option, none, some, List, [], ◌∷◌, ltb, leb,
  ◌==◌, if◌then◌else◌, check, ◌>>=◌, ◌>>◌, length, get_elem?, take, drop,
}

pub record Geometries : Type 0 where
  pub geometry_indices : List ℕ
  pub geometry_list : List ℕ

-- The read of an array of `n` numbers, and what is left of the file.
pub read_block : ℕ → List ℕ → Option (List ℕ × List ℕ)
read_block zero file = some ([], file)
read_block (suc n) [] = none
read_block (suc n) (x ∷ file) = do (xs, rest) ← read_block n file; some (x ∷ xs, rest)

pub read_number : List ℕ → Option (ℕ × List ℕ)
read_number [] = none
read_number (x ∷ file) = some (x, file)

-- `back()`
abbrev pub last? : List ℕ → Option ℕ
last? xs = get_elem? xs (length xs - 1)

pub load_geometries : List ℕ → Option Geometries
load_geometries file = do
  (number_of_indices, file₁) ← read_number file
  (indices, file₂) ← read_block number_of_indices file₁
  (number_of_compressed_geometries, file₃) ← read_number file₂
  last ← last? indices
  check (last == number_of_compressed_geometries)
  (nodes, _) ← read_block number_of_compressed_geometries file₃
  some (record { geometry_indices = indices; geometry_list = nodes })

pub get_uncompressed_geometry : ℕ → Geometries → Option (List ℕ)
get_uncompressed_geometry id g = do
  begin ← get_elem? g.geometry_indices id
  end ← get_elem? g.geometry_indices (id + 1)
  check (leb begin end && leb end (length g.geometry_list))
  some (take (end - begin) (drop begin g.geometry_list))
