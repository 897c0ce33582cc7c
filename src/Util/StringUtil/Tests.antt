-- ===== src/Util/StringUtil/Tests.antt =====
-- Concrete texts, and the theorems at them.
use osrm_backend.Prelude.{◌≡◌, refl, some, codes, arith, ◌∷◌}
use osrm_backend.Util.StringUtil.{escape_json_string, uri_decode, is_xdigit, hex_value}
use osrm_backend.Util.StringUtil.Json.{unescape_json, unescape-escape_json}
use osrm_backend.Util.StringUtil.Uri.{
  Encodes, nil, plain, percent, digit, upper, uri_decode-Encodes,
}

decode_lem : uri_decode (codes "%41b%2Fc%4") ≡ codes "Ab/c%4"
unfolding uri_decode is_xdigit hex_value
decode_lem = refl

unescape-escape_json_example :
    unescape_json (escape_json_string (10 ∷ codes "a/b")) ≡ some (10 ∷ codes "a/b")
unescape-escape_json_example = unescape-escape_json (10 ∷ codes "a/b") refl

-- "A/" as "A%2F".
encoded : Encodes (codes "A/") (codes "A%2F")
encoded =
    plain b'A' (omega arith) (
      percent (digit 2 b'2' (omega arith) refl) (upper 15 b'F' (omega arith) (omega arith) refl)
        nil)

uri_decode-Encodes_example : uri_decode (codes "A%2F") ≡ codes "A/"
uri_decode-Encodes_example = uri_decode-Encodes encoded
