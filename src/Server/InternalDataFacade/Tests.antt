-- ===== src/Server/InternalDataFacade/Tests.antt =====
-- A file with one compressed edge.
use osrm_backend.Prelude.{
  ℕ, ◌<◌, ◌≡◌, none, some, [], ◌∷◌, map, Returns, ◌==◌, ◌>>=◌, arith, if◌then◌else◌,
}
use osrm_backend.Prelude.Int.{pos}
use osrm_backend.Contractor.GeometryCompressor.Serialize.{sum_lengths}
use osrm_backend.Contractor.GeometryCompressor.{GeometryCompressor, serialize_internal_vector}
use osrm_backend.Server.InternalDataFacade.{Geometries, load_geometries, get_uncompressed_geometry}
use osrm_backend.Server.InternalDataFacade.Load.{uncompressed-load}

abbrev two_buckets : GeometryCompressor
two_buckets = record {
  compressed_geometries = record {
    size = 2;
    at = λ i.
        if i == 0
        then record { node = 7; weight = pos 10 } ∷ record { node = 8; weight = pos 20 } ∷ []
        else [];
  };
  free_list = 1 ∷ [];
  edge_id_to_list_index_map = λ e. if e == 5 then some 0 else none;
  free_list_maximum = 2;
}

abbrev Loads : GeometryCompressor → Geometries → Type 0
Loads g h =
    (i : ℕ)
    → i < g.compressed_geometries.size
    → get_uncompressed_geometry i h ≡ some (map (λ c. c.node) (g.compressed_geometries.at i))

uncompressed-load_example :
    Returns (Loads two_buckets) (serialize_internal_vector two_buckets >>= load_geometries)
unfolding sum_lengths
uncompressed-load_example = uncompressed-load two_buckets (omega arith) (omega arith)
