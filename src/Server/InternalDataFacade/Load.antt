-- ===== src/Server/InternalDataFacade/Load.antt =====
-- The geometry file that GeometryCompressor writes is read back: each bucket's nodes by its index.
use osrm_backend.Prelude.{
  ℕ, suc, ◌+◌, ◌-◌, ◌<◌, ◌≡◌, refl, ◌∙◌, sym, ap, true, some, List, [], ◌∷◌, ◌++◌, map, leb, arith,
  length, get_elem?, ◌&&◌, Returns, done, ==_iff, ◌>>=◌, ◌<◌,
}
use mathlib.Core.List.{append-nil}
use osrm_backend.Contractor.GeometryCompressor.{
  GeometryCompressor, serialize_internal_vector, unsigned_max,
}
use osrm_backend.Contractor.GeometryCompressor.Serialize.{
  indices_of, sum_lengths, nodes_of, serialize_lem, length-indices_of, length-nodes_of, index_at,
  sum_lengths-suc, sum_lengths_mono, nodes_at,
}
use osrm_backend.Server.InternalDataFacade.{
  Geometries, read_block, read_number, load_geometries, get_uncompressed_geometry,
}

read_block-append : (xs rest : List ℕ) → read_block (length xs) (xs ++ rest) ≡ some (xs, rest)
unfolding read_block
read_block-append [] rest = refl
read_block-append (x ∷ xs) rest = rw (read_block-append xs rest) refl

load_text :
    (idx ns : List ℕ)
    → get_elem? idx (length idx - 1) ≡ some (length ns)
    → load_geometries (length idx ∷ (idx ++ (length ns ∷ ns)))
      ≡ some (record { geometry_indices = idx; geometry_list = ns })
unfolding load_geometries read_number
load_text idx ns h =
    let all : read_block (length ns) ns ≡ some (ns, []) =
      ap (read_block (length ns)) (sym (append-nil ns)) ∙ read_block-append ns [] in
    rw (read_block-append idx (length ns ∷ ns), h, (==_iff (length ns) (length ns)).1 refl, all)
      refl

-- What the loader takes from the file.
abbrev loaded : GeometryCompressor → Geometries
loaded g = record {
  geometry_indices = indices_of g.compressed_geometries.size 0 0 g.compressed_geometries;
  geometry_list = nodes_of g.compressed_geometries.size 0 g.compressed_geometries;
}

load_lem :
    (g : GeometryCompressor)
    → g.compressed_geometries.size + 1 < unsigned_max
    → sum_lengths g.compressed_geometries.size 0 0 g.compressed_geometries < unsigned_max
    → (serialize_internal_vector g >>= load_geometries) ≡ some (loaded g)
load_lem g few fits =
    let geo = g.compressed_geometries in
    let idx = indices_of geo.size 0 0 geo in
    let ns = nodes_of geo.size 0 geo in
    let a = length-indices_of geo geo.size 0 0 in
    let b = length-nodes_of geo geo.size 0 in
    let text : serialize_internal_vector g ≡ some (length idx ∷ (idx ++ (length ns ∷ ns))) =
      rw (a, b) (serialize_lem g few fits) in
    let back : length idx - 1 ≡ geo.size = omega (arith, a) in
    rw text (load_text idx ns (rw (back, b) (index_at geo geo.size 0 0 geo.size (omega arith))))

-- For a compressor with fewer than 2 ^ 32 - 2 buckets, whose lengths sum to less than 2 ^ 32 - 1, the file
-- is written and loaded, and the lookup of a bucket's index then returns the nodes of the bucket, in
-- order.
pub uncompressed-load :
    (g : GeometryCompressor)
    → g.compressed_geometries.size + 1 < unsigned_max
    → sum_lengths g.compressed_geometries.size 0 0 g.compressed_geometries < unsigned_max
    → Returns
        (λ h.
          (i : ℕ)
          → i < g.compressed_geometries.size
          → get_uncompressed_geometry i h ≡ some (map (λ c. c.node) (g.compressed_geometries.at i)))
        (serialize_internal_vector g >>= load_geometries)
unfolding get_uncompressed_geometry
uncompressed-load g few fits = rw (load_lem g few fits) (done (λ i h. look i h))
  where
    look :
        (i : ℕ)
        → i < g.compressed_geometries.size
        → get_uncompressed_geometry i (loaded g)
          ≡ some (map (λ c. c.node) (g.compressed_geometries.at i))
    look i h =
        let geo = g.compressed_geometries in
        let n = geo.size in
        let b = length-nodes_of geo n 0 in
        let next = sum_lengths-suc geo i 0 in
        let top = sum_lengths_mono geo (suc i) n 0 (omega arith) in
        let z : i + 1 ≡ suc i = omega arith in
        let y : 0 + i ≡ i = omega arith in
        let inside : leb (sum_lengths i 0 0 geo) (sum_lengths (suc i) 0 0 geo)
              && leb (sum_lengths (suc i) 0 0 geo) (length (nodes_of n 0 geo))
            ≡ true =
          ground (arith, next, top, b) in
        let width : sum_lengths (suc i) 0 0 geo - sum_lengths i 0 0 geo ≡ length (geo.at (0 + i)) =
          omega (arith, next) in
        rw
          (
            index_at geo n 0 0 i (omega arith),
            z,
            index_at geo n 0 0 (suc i) (omega arith),
            inside,
            width,
            nodes_at geo n 0 i h,
            y,
          )
          refl
