-- ===== src/Server/RequestParser/Grammar.antt =====
-- The text of a request, and how the parser goes through each of its parts.
use osrm_backend.Prelude.{ℕ, ◌≡◌, refl, false, true, List, [], ◌∷◌, ◌++◌, arith, ◌==◌, All}
use osrm_backend.Server.RequestParser.{
  CompressionType, Header, Request, State, method, uri, http_version_h, http_version_major,
  http_version_minor_start, http_version_minor, header_line_start, header_name, header_value,
  Session, consume, parse, is_rejected, is_ctl, is_tspecial, is_digit,
}
use mathlib.Core.List.{append-nil}

-- A character of a method or of a header's name.
abbrev pub IsToken : ℕ → Type 0
IsToken c = is_rejected c ≡ false

-- A character of a target.
abbrev pub IsUriChar : ℕ → Type 0
IsUriChar c = (is_ctl c ≡ false) × ((c == b' ') ≡ false)

-- A character of a header's value.
abbrev pub IsValueChar : ℕ → Type 0
IsValueChar c = is_ctl c ≡ false

abbrev pub IsDigit : ℕ → Type 0
IsDigit c = is_digit c ≡ true

-- A text that is not empty.
pub record Word : Type 0 where
  pub first : ℕ
  pub others : List ℕ

abbrev pub AllOf : (ℕ → Type 0) → Word → Type 0
AllOf P w = P w.first × All P w.others

-- A header line: a name and a value.
pub record Line : Type 0 where
  pub name : Word
  pub value : List ℕ

abbrev pub IsLine : Line → Type 0
IsLine l = AllOf IsToken l.name × All IsValueChar l.value

abbrev pub header_of : Line → Header
header_of l = record { name = l.name.first ∷ l.name.others; value = l.value }

-- "name: value\r\n", and then `rest`.
abbrev pub line_text : Line → List ℕ → List ℕ
line_text l rest = l.name.first ∷ (l.name.others ++ (b':' ∷ b' ' ∷ (l.value ++ (13 ∷ 10 ∷ rest))))

abbrev pub lines_text : List Line → List ℕ → List ℕ
lines_text [] rest = 13 ∷ 10 ∷ rest
lines_text (l ∷ ls) rest = line_text l (lines_text ls rest)

abbrev pub version_text : Word → Word → List ℕ → List ℕ
version_text major minor rest =
    b'H'
    ∷ b'T'
    ∷ b'T'
    ∷ b'P'
    ∷ b'/'
    ∷ major.first
    ∷ (major.others ++ (b'.' ∷ minor.first ∷ (minor.others ++ (13 ∷ 10 ∷ rest))))

-- "METHOD target HTTP/major.minor\r\n", the header lines, "\r\n", and then `rest`.
abbrev pub request_text : Word → List ℕ → Word → Word → List Line → List ℕ → List ℕ
request_text m target major minor ls rest =
    m.first
    ∷ (m.others ++ (b' ' ∷ (target ++ (b' ' ∷ version_text major minor (lines_text ls rest)))))

abbrev pub sess : State → Header → Request → CompressionType → Session
sess st h r ct = record { state = st; header = h; req = r; compression_type = ct }

abbrev pub add_uri : Request → List ℕ → Request
add_uri r u = record r { uri = r.uri ++ u }

-- A token is no separator.
pub token_ne :
    (c : ℕ) → IsToken c → ((c == b' ') ≡ false) × ((c == b':') ≡ false) × ((c == 13) ≡ false)
unfolding is_rejected is_tspecial is_ctl
token_ne c t = ground arith

value_ne : (c : ℕ) → IsValueChar c → (c == 13) ≡ false
unfolding is_ctl
value_ne c t = ground arith

digit_ne : (c : ℕ) → IsDigit c → ((c == b'.') ≡ false) × ((c == 13) ≡ false)
unfolding is_digit
digit_ne c t = ground arith

append_cons : (a b : List ℕ) (c : ℕ) → a ++ (c ∷ b) ≡ (a ++ (c ∷ [])) ++ b
append_cons [] b c = refl
append_cons (x ∷ a) b c = cc (append_cons a b c)

module _ (r : Request) (ct : CompressionType) where
  pub method_run :
      (m rest : List ℕ) (h : Header)
      → All IsToken m
      → parse (m ++ (b' ' ∷ rest)) (sess method h r ct) ≡ parse rest (sess uri h r ct)
  unfolding parse consume
  method_run [] rest h ok = refl
  method_run (c ∷ m) rest h (t, ok) = ground (arith, token_ne c t, method_run m rest h ok)

  pub name_run :
      (m rest : List ℕ) (n : List ℕ)
      → All IsToken m
      → parse (m ++ (b':' ∷ b' ' ∷ rest)) (sess header_name (record { name = n; value = [] }) r ct)
        ≡ parse rest (sess header_value (record { name = n ++ m; value = [] }) r ct)
  unfolding parse consume
  name_run [] rest n ok = rw append-nil
  name_run (c ∷ m) rest n (t, ok) =
      ground (arith, token_ne c t, name_run m rest (n ++ (c ∷ [])) ok, append_cons n m c)

  pub value_run :
      (m rest : List ℕ) (n v : List ℕ)
      → All IsValueChar m
      → parse (m ++ (13 ∷ 10 ∷ rest)) (sess header_value (record { name = n; value = v }) r ct)
        ≡ parse rest (sess header_line_start (record { name = n; value = v ++ m }) r ct)
  unfolding parse consume
  value_run [] rest n v ok = rw append-nil
  value_run (c ∷ m) rest n v (t, ok) =
      ground (arith, value_ne c t, value_run m rest n (v ++ (c ∷ [])) ok, append_cons v m c)

  major_run :
      (m rest : List ℕ) (h : Header)
      → All IsDigit m
      → parse (m ++ (b'.' ∷ rest)) (sess http_version_major h r ct)
        ≡ parse rest (sess http_version_minor_start h r ct)
  unfolding parse consume
  major_run [] rest h ok = refl
  major_run (c ∷ m) rest h (t, ok) = ground (arith, digit_ne c t, major_run m rest h ok)

  minor_run :
      (m rest : List ℕ) (h : Header)
      → All IsDigit m
      → parse (m ++ (13 ∷ 10 ∷ rest)) (sess http_version_minor h r ct)
        ≡ parse rest (sess header_line_start h r ct)
  unfolding parse consume
  minor_run [] rest h ok = refl
  minor_run (c ∷ m) rest h (t, ok) = ground (arith, digit_ne c t, minor_run m rest h ok)

  pub version_run :
      (major minor : Word) (rest : List ℕ) (h : Header)
      → AllOf IsDigit major
      → AllOf IsDigit minor
      → parse (version_text major minor rest) (sess http_version_h h r ct)
        ≡ parse rest (sess header_line_start h r ct)
  unfolding parse consume
  version_run major minor rest h (a, as_) (b, bs) = ground (
    arith,
    major_run major.others (minor.first ∷ (minor.others ++ (13 ∷ 10 ∷ rest))) h as_,
    minor_run minor.others rest h bs,
  )

pub uri_run :
    (u rest : List ℕ) (h : Header) (r : Request) (ct : CompressionType)
    → All IsUriChar u
    → parse (u ++ (b' ' ∷ rest)) (sess uri h r ct)
      ≡ parse rest (sess http_version_h h (add_uri r u) ct)
unfolding parse consume
uri_run [] rest h r ct ok = rw append-nil
uri_run (c ∷ u) rest h r ct (t, ok) =
    ground (arith, uri_run u rest h (add_uri r (c ∷ [])) ct ok, append_cons r.uri u c)
