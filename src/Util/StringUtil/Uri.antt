-- ===== src/Util/StringUtil/Uri.antt =====
-- What URIDecode makes of an encoded text.
use osrm_backend.Prelude.{
  ℕ, ◌+◌, ◌-◌, ◌*◌, ◌≤◌, ◌<◌, ◌≡◌, ◌≢◌, refl, ap, ◌∙◌, true, List, [], ◌∷◌, arith,
}
use osrm_backend.Util.StringUtil.{uri_decode, is_xdigit, hex_value}

-- A hexadecimal digit, and the number that it stands for.
pub data Hex : ℕ → ℕ → Type 0 where
  digit : (n c : ℕ) → n < 10 → c ≡ b'0' + n → Hex n c
  upper : (n c : ℕ) → 10 ≤ n → n < 16 → c ≡ b'A' + (n - 10) → Hex n c
  lower : (n c : ℕ) → 10 ≤ n → n < 16 → c ≡ b'a' + (n - 10) → Hex n c

-- `e` is a way to write the text `s`: a byte stands for itself, unless it is a percent sign, or is
-- written as a percent sign and two hexadecimal digits.
pub data Encodes : List ℕ → List ℕ → Type 0 where
  nil : Encodes [] []
  plain : {s e : List ℕ} (c : ℕ) → c ≢ b'%' → Encodes s e → Encodes (c ∷ s) (c ∷ e)
  percent :
      {s e : List ℕ} {m n c d : ℕ}
      → Hex m c
      → Hex n d
      → Encodes s e
      → Encodes ((16 * m + n) ∷ s) (b'%' ∷ c ∷ d ∷ e)

Hex-value : {n c : ℕ} → Hex n c → (hex_value c ≡ n) × (is_xdigit c ≡ true) × (n < 16) × (c ≢ 0)
unfolding hex_value is_xdigit
Hex-value (digit n c p e) = ground arith
Hex-value (upper n c p q e) = ground arith
Hex-value (lower n c p q e) = ground arith

decode_plain : (c : ℕ) (s : List ℕ) → c ≢ b'%' → uri_decode (c ∷ s) ≡ c ∷ uri_decode s
unfolding uri_decode
decode_plain c [] n = refl
decode_plain c (d ∷ []) n = refl
decode_plain c (d ∷ e ∷ s) n = ground arith

decode_percent :
    {m n c d : ℕ} (s : List ℕ)
    → Hex m c
    → Hex n d
    → uri_decode (b'%' ∷ c ∷ d ∷ s) ≡ (16 * m + n) ∷ uri_decode s
unfolding uri_decode
decode_percent s p q = ground (arith, Hex-value p, Hex-value q)

-- URIDecode of any percent-encoding of a text is the text.
pub uri_decode-Encodes : {s e : List ℕ} → Encodes s e → uri_decode e ≡ s
uri_decode-Encodes nil = unfold uri_decode in refl
uri_decode-Encodes (plain c n p) = decode_plain c _ n ∙ ap (◌∷◌ c) (uri_decode-Encodes p)
uri_decode-Encodes (percent {m} {n} p q r) =
    decode_percent _ p q ∙ ap (◌∷◌ (16 * m + n)) (uri_decode-Encodes r)
