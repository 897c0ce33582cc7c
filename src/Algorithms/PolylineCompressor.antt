-- ===== src/Algorithms/PolylineCompressor.antt =====
-- Algorithms/PolylineCompressor.cpp: the encoded geometry of a route, with the location and the
-- necessary flag of DataStructures/SegmentInformation.h.
-- An int is an integer that wraps at 32 bits. The texts are lists of bytes.
pub mod Decoder
pub mod RoundTrip
mod Tests
use Prim.Native.Nat.{bit_or}
use mathlib.Core.Logic.{dite}
use mathlib.Core.WellFounded.{Acc}
use osrm_backend.Prelude.{
  ℕ, zero, suc, ◌+◌, ◌-◌, ◌*◌, ◌/◌, ◌%◌, ◌^◌, ◌≤◌, ◌<◌, ◌≡◌, Bool, true, false, List, [], ◌∷◌, ◌++◌,
  map, arith, ◌==◌, if◌then◌else◌, dec_lt,
}
use osrm_backend.Prelude.Int.{ℤ, pos, negsuc, ◌-ℤ◌, ◌*ℤ◌, wrap32}
use osrm_backend.Prelude.Order.{lt_wf}

pub record FixedPointCoordinate : Type 0 where
  pub lat : ℤ
  pub lon : ℤ

pub record SegmentInformation : Type 0 where
  pub location : FixedPointCoordinate
  pub necessary : Bool

-- `numbers[i] <<= 1; if (numbers[i] < 0) numbers[i] = ~(numbers[i]);`, which is never negative.
pub shift_sign : ℤ → ℕ
shift_sign number = elim (wrap32 (number *ℤ pos 2)) [ pos n ↦ n | negsuc n ↦ n ]

-- `output += static_cast<char>(value)`, and once more for a backslash.
pub emit : List ℕ → ℕ → List ℕ
emit output value =
    let once = output ++ (value ∷ []) in if value == 92 then once ++ (value ∷ []) else once

-- `(0x20 | (number_to_encode & 0x1f)) + 63`
pub next_value : ℕ → ℕ
next_value n = bit_or 0x20 (n % 2 ^ 5) + 63

pub shift_shrinks : (n : ℕ) → 31 < n → n / 2 ^ 5 < n
shift_shrinks n h = omega arith

pub encode_loop : (n : ℕ) → Acc ◌<◌ n → List ℕ → List ℕ
encode_loop n (Acc.intro _ smaller) output =
    dite (dec_lt 31 n)
      (λ h. encode_loop (n / 2 ^ 5) (smaller _ (shift_shrinks n h)) (emit output (next_value n)))
      (λ _. emit output (n + 63))

pub encode_number : ℕ → List ℕ → List ℕ
encode_number n output = encode_loop n (lt_wf.apply n) output

pub encode_numbers : List ℕ → List ℕ → List ℕ
encode_numbers [] output = output
encode_numbers (n ∷ ns) output = encode_numbers ns (encode_number n output)

pub encode_vector_signed_number : List ℤ → List ℕ → List ℕ
unfolding encode_numbers
encode_vector_signed_number numbers output = encode_numbers (map shift_sign numbers) output

-- The loop over the polyline, from the last coordinate on.
pub delta_numbers : FixedPointCoordinate → List SegmentInformation → List ℤ
delta_numbers last [] = []
delta_numbers last (s ∷ ss) =
    let here =
      wrap32 (s.location.lat -ℤ last.lat)
      ∷ wrap32 (s.location.lon -ℤ last.lon)
      ∷ delta_numbers s.location ss in
    if s.necessary then here else delta_numbers last ss

pub print_encoded_string : List SegmentInformation → List ℕ
unfolding delta_numbers
print_encoded_string [] = []
print_encoded_string (s ∷ ss) =
    encode_vector_signed_number (delta_numbers (record { lat = pos 0; lon = pos 0 }) (s ∷ ss)) []
