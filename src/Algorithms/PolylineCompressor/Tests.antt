-- ===== src/Algorithms/PolylineCompressor/Tests.antt =====
-- Concrete polylines, and the theorems at them.
use mathlib.Core.Option
use osrm_backend.Prelude.{◌≡◌, refl, true, false, List, [], ◌∷◌, codes, some, arith, dec_lt}
use osrm_backend.Prelude.Int.{ℤ, pos, negsuc, ◌*ℤ◌, wrap32}
use osrm_backend.Prelude.Order.{lt_wf}
use osrm_backend.Algorithms.PolylineCompressor.{
  FixedPointCoordinate, SegmentInformation, shift_sign, emit, next_value, encode_loop,
  encode_number, encode_vector_signed_number, print_encoded_string,
}
use osrm_backend.Algorithms.PolylineCompressor.Decoder.{decode_numbers, coordinates}
use osrm_backend.Algorithms.PolylineCompressor.RoundTrip.{
  necessary_locations, decode-print_encoded_string,
}

abbrev numbers : List ℤ
numbers = pos 3_850_000 ∷ negsuc 12_019_999 ∷ pos 0 ∷ []

-- The first number is the 38.5 degrees of the format's description, with a precision of 5.
encode_numbers_lem : encode_vector_signed_number numbers [] ≡ codes "_p~iF~ps|U?"
unfolding encode_vector_signed_number encode_number encode_loop shift_sign emit next_value wrap32
    ◌*ℤ◌ lt_wf dec_lt
encode_numbers_lem = refl

abbrev origin : FixedPointCoordinate
origin = record { lat = pos 0; lon = pos 0 }

abbrev segments : List SegmentInformation
segments =
    record { location = record { lat = pos 52_519_930; lon = pos 13_438_640 }; necessary = true }
    ∷ record { location = record { lat = pos 52_000_000; lon = pos 13_000_000 }; necessary = false }
    ∷ record { location = record { lat = pos 52_513_191; lon = negsuc 9 }; necessary = true }
    ∷ []

decode-print_encoded_string_example :
    Option.map (coordinates origin) (decode_numbers (print_encoded_string segments))
    ≡ some (necessary_locations segments)
decode-print_encoded_string_example = decode-print_encoded_string segments (omega arith)
