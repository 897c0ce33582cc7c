-- ===== src/Util/StringUtil.antt =====
-- Util/StringUtil.h: escaping for JSON and decoding of URIs.
-- A char is its byte, and a text a list of bytes.
pub mod Json
pub mod Uri
mod Tests
use osrm_backend.Prelude.{
  ℕ, ◌+◌, ◌-◌, ◌*◌, ◌%◌, Bool, true, false, ◌&&◌, ◌||◌, List, [], ◌∷◌, ◌++◌, ltb, leb, ◌==◌,
  if◌then◌else◌,
}
use mathlib.Core.Bool.{not}

-- What EscapeJSONString appends for one character.
pub escape_char : ℕ → List ℕ
escape_char c =
    if c == 92
    then 92 ∷ 92 ∷ []
    else if c == 34
    then 92 ∷ 34 ∷ []
    else if c == b'/'
    then 92 ∷ b'/' ∷ []
    else if c == 8
    then 92 ∷ b'b' ∷ []
    else if c == 12
    then 92 ∷ b'f' ∷ []
    else if c == 10
    then 92 ∷ b'n' ∷ []
    else if c == 13
    then 92 ∷ b'r' ∷ []
    else if c == 9
    then 92 ∷ b't' ∷ []
    else c ∷ []

pub escape_json_string : List ℕ → List ℕ
unfolding escape_char
escape_json_string [] = []
escape_json_string (c ∷ cs) = escape_char c ++ escape_json_string cs

-- `isxdigit` of the C locale.
pub is_xdigit : ℕ → Bool
is_xdigit c = (leb b'0' c && leb c b'9') || (leb b'A' c && leb c b'F') || (leb b'a' c && leb c b'f')

-- `c - (c < 58 ? 48 : c < 71 ? 55 : 87)`, for a hexadecimal digit.
pub hex_value : ℕ → ℕ
hex_value c = c - (if ltb c 58 then 48 else if ltb c 71 then 55 else 87)

-- URIDecode, whose result is the text; the returned number is its length. The character behind the
-- last one of a std::string is 0, so an escape that is cut off is copied as it stands.
-- `output` is another string than `input`.
pub uri_decode : List ℕ → List ℕ
uri_decode [] = []
uri_decode (c ∷ []) = c ∷ []
uri_decode (c ∷ d ∷ []) = c ∷ d ∷ []
uri_decode (c ∷ d ∷ e ∷ cs) =
    let decoded = ((16 * hex_value d + hex_value e) % 256) ∷ uri_decode cs in
    let copied = c ∷ uri_decode (d ∷ e ∷ cs) in
    if c == b'%' && not (d == 0) && not (e == 0) && is_xdigit d && is_xdigit e
    then decoded
    else copied
