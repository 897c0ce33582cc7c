-- ===== src/Contractor/GeometryCompressor/Tests.antt =====
-- Two edges compressed over node 7.
use osrm_backend.Prelude.{arith, Returns}
use osrm_backend.Prelude.Int.{pos}
use osrm_backend.Contractor.GeometryCompressor.{new_compressor, compress_edge}
use osrm_backend.Contractor.GeometryCompressor.Buckets.{new_compressor-IsValid}
use osrm_backend.Contractor.GeometryCompressor.Compress.{Compressed, compress_edge_correct}

compress_edge_correct_example :
    Returns
      (Compressed 1 2
        (record { node = 7; weight = pos 10 })
        (record { node = 8; weight = pos 20 })
        new_compressor)
      (compress_edge 1 2 7 8 (pos 10) (pos 20) new_compressor)
compress_edge_correct_example =
    compress_edge_correct 1 2 7 8 (pos 10) (pos 20) new_compressor new_compressor-IsValid
      (omega arith) (omega arith, omega arith, omega arith, omega arith)
      ((λ e. ground (arith, e)), (λ e. ground (arith, e)))
