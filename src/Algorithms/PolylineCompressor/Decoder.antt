-- ===== src/Algorithms/PolylineCompressor/Decoder.antt =====
-- A decoder for encoded polylines, independent of the compressor: the groups of five bits, the
-- sign in the lowest bit, and running sums for the coordinates.
use osrm_backend.Prelude.{
  ℕ, zero, suc, ◌+◌, ◌-◌, ◌*◌, ◌/◌, ◌%◌, ◌&&◌, List, [], ◌∷◌, ◌==◌, ltb, if◌then◌else◌, Option,
  none, some, ◌>>=◌, length,
}
use osrm_backend.Prelude.Int.{ℤ, pos, negsuc, ◌+ℤ◌}
use osrm_backend.Algorithms.PolylineCompressor.{FixedPointCoordinate}

-- Each doubled backslash becomes one.
unfoldable pub unescape : List ℕ → List ℕ
unescape [] = []
unescape (c ∷ []) = c ∷ []
unescape (c ∷ d ∷ cs) =
    let single = c ∷ unescape (d ∷ cs) in
    let pair = c ∷ unescape cs in if c == 92 && d == 92 then pair else single

-- The number whose groups of five bits come first, and what follows it.
unfoldable pub decode_number : List ℕ → Option (ℕ × List ℕ)
decode_number [] = none
decode_number (c ∷ cs) =
    let more = decode_number cs >>= λ (n, rest). some (c - 95 + 32 * n, rest) in
    if ltb c 95 then some (c - 63, cs) else more

-- The sign is the lowest bit.
unfoldable pub unshift_sign : ℕ → ℤ
unshift_sign n = if n % 2 == 0 then pos (n / 2) else negsuc (n / 2)

unfoldable pub decode_list : ℕ → List ℕ → Option (List ℤ)
decode_list fuel [] = some []
decode_list zero (c ∷ cs) = none
decode_list (suc fuel) (c ∷ cs) = do
  (n, rest) ← decode_number (c ∷ cs)
  ns ← decode_list fuel rest
  some (unshift_sign n ∷ ns)

unfoldable pub decode_numbers : List ℕ → Option (List ℤ)
unfolding unescape decode_number unshift_sign decode_list
decode_numbers s = decode_list (length (unescape s)) (unescape s)

-- The coordinates whose differences are given, from `last` on.
unfoldable pub coordinates : FixedPointCoordinate → List ℤ → List FixedPointCoordinate
coordinates last (a ∷ b ∷ ns) =
    let next : FixedPointCoordinate = record { lat = last.lat +ℤ a; lon = last.lon +ℤ b } in
    next ∷ coordinates next ns
coordinates last _ = []
