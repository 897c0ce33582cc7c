-- ===== src/Algorithms/PolylineCompressor/RoundTrip.antt =====
-- The decoder reads back what the compressor writes.
use Prim.Native.Nat.{bit_or}
use mathlib.Core.WellFounded.{Acc}
use mathlib.Core.Logic.{dite}
use mathlib.Core.List.{append_assoc, append-nil}
use osrm_backend.Prelude.{
  ℕ, zero, suc, ◌+◌, ◌/◌, ◌%◌, ◌^◌, ◌≤◌, ◌<◌, ◌≡◌, refl, sym, ap, ◌∙◌, true, false, List, [], ◌∷◌,
  ◌++◌, map, arith, ◌==◌, ==_iff, if◌then◌else◌, dec_lt, some, ◌>>=◌, length, length-append, All,
  Bool-cases, inl, inr,
}
use mathlib.Core.Option
use osrm_backend.Prelude.Order.{lt_wf}
use osrm_backend.Prelude.Bits.{passes, passes_lem}
use osrm_backend.Prelude.Int.{ℤ, pos, pos_part, neg_part, ◌+ℤ◌, ◌-ℤ◌, ◌*ℤ◌, wrap32}
use osrm_backend.Algorithms.PolylineCompressor.Decoder.{
  unescape, decode_number, unshift_sign, decode_list, decode_numbers, coordinates,
}
use osrm_backend.Algorithms.PolylineCompressor.{
  FixedPointCoordinate, SegmentInformation, shift_sign, emit, next_value, shift_shrinks,
  encode_loop, encode_number, encode_numbers, encode_vector_signed_number, delta_numbers,
  print_encoded_string,
}

-- Each backslash doubled.
escape : List ℕ → List ℕ
escape [] = []
escape (c ∷ cs) = let rest = escape cs in if c == 92 then c ∷ c ∷ rest else c ∷ rest

escape-append : (a b : List ℕ) → escape (a ++ b) ≡ escape a ++ escape b
unfolding escape
escape-append [] b = refl
escape-append (c ∷ a) b = ground (arith, escape-append a b)

unescape-cons : (c : ℕ) (s : List ℕ) → (c == 92) ≡ false → unescape (c ∷ s) ≡ c ∷ unescape s
unfolding unescape
unescape-cons c [] e = refl
unescape-cons c (d ∷ s) e = rw e

unescape-escape : (s : List ℕ) → unescape (escape s) ≡ s
unfolding escape
unescape-escape [] = unfold unescape in refl
unescape-escape (c ∷ s) = elim (Bool-cases (c == 92)) [
  | inl e ↦ rw e (pair c (escape s) e ∙ ap (◌∷◌ c) (unescape-escape s))
  | inr e ↦ rw e (unescape-cons c (escape s) e ∙ ap (◌∷◌ c) (unescape-escape s))
]
  where
    pair : (c : ℕ) (s : List ℕ) → (c == 92) ≡ true → unescape (c ∷ c ∷ s) ≡ c ∷ unescape s
    pair c s e = unfold unescape in rw e

-- The groups of five bits of a number, lowest first.
groups : (n : ℕ) → Acc ◌<◌ n → List ℕ
groups n (Acc.intro _ smaller) =
    dite (dec_lt 31 n) (λ h. (n % 32 + 95) ∷ groups (n / 2 ^ 5) (smaller _ (shift_shrinks n h)))
      (λ _. (n + 63) ∷ [])

or_table : (x : ℕ) → x < 32 → bit_or 0x20 x ≡ x + 32
unfolding passes
or_table x h =
    (==_iff _ _).0 (passes_lem (λ y. bit_or 0x20 y == y + 32) 0 32 x refl (omega arith) h)

emit-append : (out : List ℕ) (c : ℕ) → emit out c ≡ out ++ escape (c ∷ [])
unfolding emit escape
emit-append out c = elim (Bool-cases (c == 92)) [
  | inl e ↦ rw e (append_assoc out (c ∷ []) (c ∷ []))
  | inr e ↦ rw e
]

next_value_lem : (n : ℕ) → next_value n ≡ n % 32 + 95
unfolding next_value
next_value_lem n = omega (arith, or_table (n % 32) (omega arith))

encode_loop-groups :
    (n : ℕ) (w : Acc ◌<◌ n) (out : List ℕ) → encode_loop n w out ≡ out ++ escape (groups n w)
unfolding encode_loop groups
encode_loop-groups n (Acc.intro _ smaller) out =
    let next = emit out (next_value n) in
    grind (
      arith,
      λ (p : n / 2 ^ 5 < n). encode_loop-groups (n / 2 ^ 5) (smaller (n / 2 ^ 5) p) next,
      next_value_lem n,
      emit-append out (next_value n),
      emit-append out (n + 63),
      λ (p : n / 2 ^ 5 < n).
          escape-append ((n % 32 + 95) ∷ []) (groups (n / 2 ^ 5) (smaller (n / 2 ^ 5) p)),
      λ (p : n / 2 ^ 5 < n).
          append_assoc out (escape ((n % 32 + 95) ∷ []))
            (escape (groups (n / 2 ^ 5) (smaller (n / 2 ^ 5) p))),
    )

decode_number-groups :
    (n : ℕ) (w : Acc ◌<◌ n) (rest : List ℕ) → decode_number (groups n w ++ rest) ≡ some (n, rest)
unfolding decode_number groups
decode_number-groups n (Acc.intro _ smaller) rest =
    grind
      (arith, λ (p : n / 2 ^ 5 < n). decode_number-groups (n / 2 ^ 5) (smaller (n / 2 ^ 5) p) rest)

all_groups : List ℕ → List ℕ
unfolding lt_wf
all_groups [] = []
all_groups (n ∷ ns) = groups n (lt_wf.apply n) ++ all_groups ns

encode_numbers-groups : (ns out : List ℕ) → encode_numbers ns out ≡ out ++ escape (all_groups ns)
unfolding encode_numbers encode_number all_groups
encode_numbers-groups [] out = unfold escape in sym (append-nil out)
encode_numbers-groups (n ∷ ns) out =
    encode_numbers-groups ns (encode_number n out)
    ∙ rw (
      encode_loop-groups n (lt_wf.apply n) out,
      escape-append (groups n (lt_wf.apply n)) (all_groups ns),
      append_assoc,
    )

groups_nonempty : (n : ℕ) (w : Acc ◌<◌ n) → 0 < length (groups n w)
unfolding groups
groups_nonempty n (Acc.intro _ smaller) = grind arith

decode_list_step :
    (fuel : ℕ) (s rest : List ℕ) (n : ℕ)
    → decode_number s ≡ some (n, rest)
    → decode_list (suc fuel) s ≡ (decode_list fuel rest >>= λ ns. some (unshift_sign n ∷ ns))
unfolding decode_list
decode_list_step fuel [] rest n e = unfold decode_number in cc
decode_list_step fuel (c ∷ cs) rest n e = rw e

decode_list-groups :
    (ns : List ℕ) (fuel : ℕ)
    → length (all_groups ns) ≤ fuel
    → decode_list fuel (all_groups ns) ≡ some (map unshift_sign ns)
decode_list-groups [] fuel h = unfold decode_list all_groups in refl
decode_list-groups (n ∷ ns) fuel h = go fuel h (longer n ns) (decode_list-groups ns)
  where
    longer : (n : ℕ) (ns : List ℕ) → length (all_groups ns) < length (all_groups (n ∷ ns))
    longer n ns =
        unfold all_groups in
        omega (
          arith,
          length-append (groups n (lt_wf.apply n)) (all_groups ns),
          groups_nonempty n (lt_wf.apply n),
        )

    go :
        (fuel : ℕ)
        → length (all_groups (n ∷ ns)) ≤ fuel
        → length (all_groups ns) < length (all_groups (n ∷ ns))
        → ((f : ℕ)
            → length (all_groups ns) ≤ f
            → decode_list f (all_groups ns) ≡ some (map unshift_sign ns))
        → decode_list fuel (all_groups (n ∷ ns)) ≡ some (map unshift_sign (n ∷ ns))
    go zero h l ih = absurd (omega arith)
    go (suc f) h l ih =
        unfold all_groups in
        decode_list_step f (groups n (lt_wf.apply n) ++ all_groups ns) (all_groups ns) n
          (decode_number-groups n (lt_wf.apply n) (all_groups ns))
        ∙ rw (ih f (omega arith))

-- A number that keeps its sign when it is doubled.
abbrev pub IsInt31 : ℤ → Type 0
IsInt31 a = (pos_part a < 2 ^ 30) × (neg_part a ≤ 2 ^ 30)

unshift_sign-shift_sign : (a : ℤ) → IsInt31 a → unshift_sign (shift_sign a) ≡ a
unfolding shift_sign unshift_sign wrap32 ◌*ℤ◌
unshift_sign-shift_sign a h = ground arith

map-unshift_sign : (ns : List ℤ) → All IsInt31 ns → map unshift_sign (map shift_sign ns) ≡ ns
map-unshift_sign [] h = refl
map-unshift_sign (n ∷ ns) (h, hs) = cc (unshift_sign-shift_sign n h, map-unshift_sign ns hs)

-- A list of signed numbers, each of which fits an int when it is doubled, is read back from its
-- encoding by the decoder that undoes the doubled backslashes.
decode_numbers-encode_vector :
    (ns : List ℤ) → All IsInt31 ns → decode_numbers (encode_vector_signed_number ns []) ≡ some ns
unfolding decode_numbers encode_vector_signed_number
decode_numbers-encode_vector ns h = rw (
  encode_numbers-groups (map shift_sign ns) [],
  unescape-escape (all_groups (map shift_sign ns)),
  decode_list-groups (map shift_sign ns) (length (all_groups (map shift_sign ns))) (omega arith),
  map-unshift_sign ns h,
)

-- A location on the globe, in millionths of a degree.
abbrev pub IsLocation : FixedPointCoordinate → Type 0
IsLocation c =
    (pos_part c.lat ≤ 90_000_000)
    × (neg_part c.lat ≤ 90_000_000)
    × (pos_part c.lon ≤ 180_000_000)
    × (neg_part c.lon ≤ 180_000_000)

-- The locations of the necessary segments, in order.
abbrev pub necessary_locations : List SegmentInformation → List FixedPointCoordinate
necessary_locations [] = []
necessary_locations (s ∷ ss) =
    if s.necessary then s.location ∷ necessary_locations ss else necessary_locations ss

difference_fits :
    (a b : ℤ) (m : ℕ)
    → m ≤ 180_000_000
    → pos_part a ≤ m
    → neg_part a ≤ m
    → pos_part b ≤ m
    → neg_part b ≤ m
    → IsInt31 (wrap32 (a -ℤ b)) × (b +ℤ wrap32 (a -ℤ b) ≡ a)
unfolding wrap32 ◌-ℤ◌ ◌+ℤ◌
difference_fits a b m hm h i j k = ground arith

delta_numbers-coordinates :
    (last : FixedPointCoordinate) (ss : List SegmentInformation)
    → IsLocation last
    → All (λ s. IsLocation s.location) ss
    → All IsInt31 (delta_numbers last ss)
      × (coordinates last (delta_numbers last ss) ≡ necessary_locations ss)
unfolding delta_numbers coordinates
delta_numbers-coordinates last [] h hs = (tt, refl)
delta_numbers-coordinates last (s ∷ ss) h (p, hs) =
    let lat = difference_fits s.location.lat last.lat 90_000_000 (omega arith) p.0 p.1 h.0 h.1 in
    let lon = difference_fits s.location.lon last.lon 180_000_000 (omega arith) p.2 p.3 h.2 h.3 in
    elim (Bool-cases s.necessary) [
      | inl e ↦
          let (a, b) = delta_numbers-coordinates s.location ss p hs in
          rw e ((lat.0, (lon.0, a)), rw (lat.1, lon.1, b))
      | inr e ↦ rw e (delta_numbers-coordinates last ss h hs)
    ]

-- The encoded text of a polyline on the globe decodes to numbers whose running sums are exactly the
-- locations of the necessary segments.
pub decode-print_encoded_string :
    (ss : List SegmentInformation)
    → All (λ s. IsLocation s.location) ss
    → Option.map
        (coordinates (record { lat = pos 0; lon = pos 0 }))
        (decode_numbers (print_encoded_string ss))
      ≡ some (necessary_locations ss)
unfolding print_encoded_string
decode-print_encoded_string [] h = unfold decode_numbers coordinates in refl
decode-print_encoded_string (s ∷ ss) h =
    let (fits, same) =
      delta_numbers-coordinates (record { lat = pos 0; lon = pos 0 }) (s ∷ ss) (omega arith) h in
    rw (decode_numbers-encode_vector _ fits) (ap some same)
