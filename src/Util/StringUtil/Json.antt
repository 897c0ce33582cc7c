-- ===== src/Util/StringUtil/Json.antt =====
-- Reading back what EscapeJSONString writes.
use osrm_backend.Prelude.{
  ℕ, ◌≡◌, refl, ◌∙◌, Bool, true, false, ◌&&◌, ◌||◌, ltb, leb, List, [], ◌∷◌, ◌++◌, ◌==◌,
  if◌then◌else◌, Option, none, some, arith, ◌>>=◌,
}
use osrm_backend.Util.StringUtil.{escape_char, escape_json_string}

-- The character that a JSON escape stands for.
pub escaped : ℕ → Option ℕ
escaped c =
    if c == 92 || c == 34 || c == b'/'
    then some c
    else if c == b'b'
    then some 8
    else if c == b'f'
    then some 12
    else if c == b'n'
    then some 10
    else if c == b'r'
    then some 13
    else if c == b't'
    then some 9
    else none

-- The text between the quotes of a JSON string, without the \u escapes: a quote or a control character
-- cannot stand there by itself.
pub unescape_json : List ℕ → Option (List ℕ)
unfolding escaped
unescape_json [] = some []
unescape_json (c ∷ []) = if c == 92 || (c == 34 || ltb c 32) then none else some (c ∷ [])
unescape_json (c ∷ d ∷ cs) =
    let pair = escaped d >>= λ x. unescape_json cs >>= λ xs. some (x ∷ xs) in
    let single = unescape_json (d ∷ cs) >>= λ xs. some (c ∷ xs) in
    if c == 92 then pair else if c == 34 || ltb c 32 then none else single

-- A character that is no control character, or one with a short escape.
abbrev pub has_escape : ℕ → Bool
has_escape c = leb 32 c || (c == 8 || (c == 9 || (c == 10 || (c == 12 || c == 13))))

-- There are no other control characters in the text.
abbrev pub all_have_escapes : List ℕ → Bool
all_have_escapes [] = true
all_have_escapes (c ∷ s) = has_escape c && all_have_escapes s

unescape_plain :
    (c : ℕ) (s : List ℕ)
    → (c == 92) ≡ false
    → (c == 34) ≡ false
    → ltb c 32 ≡ false
    → unescape_json (c ∷ s) ≡ (unescape_json s >>= λ xs. some (c ∷ xs))
unfolding unescape_json
unescape_plain c [] a b d = rw (a, b, d)
unescape_plain c (e ∷ s) a b d = rw (a, b, d)

unescape-escape_char :
    (c : ℕ) (s : List ℕ)
    → has_escape c ≡ true
    → unescape_json (escape_char c ++ s) ≡ (unescape_json s >>= λ xs. some (c ∷ xs))
unfolding escape_char escaped
unescape-escape_char c s h = ground (
  arith,
  h,
  unescape_plain c s,
  pair 92 92 refl,
  pair 34 34 refl,
  pair b'/' b'/' refl,
  pair b'b' 8 refl,
  pair b'f' 12 refl,
  pair b'n' 10 refl,
  pair b'r' 13 refl,
  pair b't' 9 refl,
)
  where
    pair :
        (d x : ℕ)
        → escaped d ≡ some x
        → unescape_json (92 ∷ d ∷ s) ≡ (unescape_json s >>= λ xs. some (x ∷ xs))
    pair d x e = unfold unescape_json in rw e

-- A JSON reader, which takes no raw control characters, reads the escaped text back as the text, when the
-- text has no control characters but backspace, tab, newline, form feed and carriage return.
pub unescape-escape_json :
    (s : List ℕ) → all_have_escapes s ≡ true → unescape_json (escape_json_string s) ≡ some s
unfolding escape_json_string
unescape-escape_json [] h = unfold unescape_json in refl
unescape-escape_json (c ∷ s) h =
    unescape-escape_char c (escape_json_string s) (ground (arith, h))
    ∙ rw (unescape-escape_json s (ground (arith, h)))
