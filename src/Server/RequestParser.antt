-- ===== src/Server/RequestParser.antt =====
-- Server/RequestParser.cpp: the HTTP request parser, a state machine over the characters of a
-- request, with Server/Http/Request.h, Server/Http/CompressionType.h and Include/osrm/Header.h.
-- A char is its byte. It is signed, so the int that it is promoted to is negative from 128 on.
-- The endpoint of a request is set by the connection and does not occur here.
pub mod States
pub mod Grammar
pub mod Accept
mod Tests
use osrm_backend.Prelude.{
  ℕ, ◌+◌, ◌≡◌, Bool, true, false, ◌&&◌, ◌||◌, List, [], ◌∷◌, ◌++◌, ltb, leb, ◌==◌, if◌then◌else◌,
}
use osrm_backend.Prelude.{codes, text_eq, contains}
use mathlib.Core.Bool.{not}

pub data CompressionType : Type 0 where
  no_compression gzip_rfc1952 deflate_rfc1951 : CompressionType

pub record Header : Type 0 where
  pub name : List ℕ
  pub value : List ℕ

abbrev pub clear : Header → Header
clear h = record { name = []; value = [] }

pub record Request : Type 0 where
  pub uri : List ℕ
  pub referrer : List ℕ
  pub agent : List ℕ

pub data State : Type 0 where
  method_start method uri_start uri http_version_h http_version_t_1 http_version_t_2 : State
  http_version_p http_version_slash http_version_major_start http_version_major : State
  http_version_minor_start http_version_minor expecting_newline_1 header_line_start : State
  header_lws header_name space_before_header_value header_value expecting_newline_2 : State
  expecting_newline_3 : State

-- boost::tribool.
pub data Tribool : Type 0 where
  is_true is_false indeterminate : Tribool

-- The members of the parser, and what its methods change through their arguments.
pub record Session : Type 0 where
  pub state : State
  pub header : Header
  pub req : Request
  pub compression_type : CompressionType

-- The constructor, for a request and a compression type of the caller.
pub new_parser : Request → CompressionType → Session
new_parser req ct = record {
  state = method_start;
  header = record { name = []; value = [] };
  req = req;
  compression_type = ct;
}

pub reset : Session → Session
reset s = record s { state = method_start }

pub is_char : ℕ → Bool
is_char c = ltb c 128

pub is_ctl : ℕ → Bool
is_ctl c = leb c 31 || c == 127

pub is_tspecial : ℕ → Bool
is_tspecial c =
    c == b'('
    || c == b')'
    || c == b'<'
    || c == b'>'
    || c == b'@'
    || c == b','
    || c == b';'
    || c == b':'
    || c == 92
    || c == 34
    || c == b'/'
    || c == b'['
    || c == b']'
    || c == b'?'
    || c == b'='
    || c == b'{'
    || c == b'}'
    || c == b' '
    || c == 9

pub is_digit : ℕ → Bool
is_digit c = leb b'0' c && leb c b'9'

-- `!isChar(input) || isCTL(input) || isTSpecial(input)`
pub is_rejected : ℕ → Bool
unfolding is_char is_ctl is_tspecial
is_rejected c = not (is_char c) || is_ctl c || is_tspecial c

-- How a case of the switch ends.
abbrev goto : State → Session → Tribool × Session
goto st s = (indeterminate, record s { state = st })

abbrev stay : Session → Tribool × Session
stay s = (indeterminate, s)

abbrev fail : Session → Tribool × Session
fail s = (is_false, s)

-- `if (input == c) { state_ = st; return indeterminate; } return false;`
abbrev expect : ℕ → State → ℕ → Session → Tribool × Session
expect c st input s = if input == c then goto st s else fail s

-- What a finished header line changes, before the next character is looked at.
pub accept_encoding : Header → CompressionType → CompressionType
accept_encoding h ct =
    let ct' = if contains h.value (codes "deflate") then deflate_rfc1951 else ct in
    let ct'' = if contains h.value (codes "gzip") then gzip_rfc1952 else ct' in
    if text_eq h.name (codes "Accept-Encoding") then ct'' else ct

pub use_header : Header → Request → Request
use_header h req = record {
  uri = req.uri;
  referrer = if text_eq h.name (codes "Referer") then h.value else req.referrer;
  agent = if text_eq h.name (codes "User-Agent") then h.value else req.agent;
}

abbrev finish_header : Session → Session
finish_header s = record s {
  req = use_header s.header s.req;
  compression_type = accept_encoding s.header s.compression_type;
}

-- One case of the switch for each state.
pub consume_at : State → ℕ → Session → Tribool × Session
consume_at method_start c s = if is_rejected c then fail s else goto method s
consume_at method c s = if c == b' ' then goto uri s else if is_rejected c then fail s else stay s
consume_at uri_start c s =
    if is_ctl c
    then fail s
    else goto uri (record s { req = record (s.req) { uri = s.req.uri ++ (c ∷ []) } })
consume_at uri c s =
    if c == b' '
    then goto http_version_h s
    else if is_ctl c
    then fail s
    else stay (record s { req = record (s.req) { uri = s.req.uri ++ (c ∷ []) } })
consume_at http_version_h c s = expect b'H' http_version_t_1 c s
consume_at http_version_t_1 c s = expect b'T' http_version_t_2 c s
consume_at http_version_t_2 c s = expect b'T' http_version_p c s
consume_at http_version_p c s = expect b'P' http_version_slash c s
consume_at http_version_slash c s = expect b'/' http_version_major_start c s
consume_at http_version_major_start c s = if is_digit c then goto http_version_major s else fail s
consume_at http_version_major c s =
    if c == b'.' then goto http_version_minor_start s else if is_digit c then stay s else fail s
consume_at http_version_minor_start c s = if is_digit c then goto http_version_minor s else fail s
consume_at http_version_minor c s =
    if c == 13 then goto expecting_newline_1 s else if is_digit c then stay s else fail s
consume_at expecting_newline_1 c s = expect 10 header_line_start c s
consume_at header_line_start c s =
    let t = finish_header s in
    if c == 13
    then goto expecting_newline_3 t
    else if is_rejected c
    then fail t
    else goto header_name (record t { header = record { name = c ∷ []; value = [] } })
consume_at header_lws c s =
    if c == 13
    then goto expecting_newline_2 s
    else if c == b' ' || c == 9
    then stay s
    else if is_ctl c
    then fail s
    else goto header_value s
consume_at header_name c s =
    if c == b':'
    then goto space_before_header_value s
    else if is_rejected c
    then fail s
    else stay (record s { header = record (s.header) { name = s.header.name ++ (c ∷ []) } })
consume_at space_before_header_value c s = expect b' ' header_value c s
consume_at header_value c s =
    if c == 13
    then goto expecting_newline_2 s
    else if is_ctl c
    then fail s
    else stay (record s { header = record (s.header) { value = s.header.value ++ (c ∷ []) } })
consume_at expecting_newline_2 c s = expect 10 header_line_start c s
consume_at expecting_newline_3 c s = if c == 10 then (is_true, s) else fail s

pub consume : ℕ → Session → Tribool × Session
unfolding consume_at
consume c s = consume_at s.state c s

-- The verdict, the input that is left, and the session.
pub parse : List ℕ → Session → Tribool × List ℕ × Session
parse [] s = (indeterminate, [], s)
parse (c ∷ cs) s =
    let (result, t) = consume c s in
    elim result [
      | indeterminate ↦ parse cs t
      | is_true ↦ (is_true, cs, t)
      | is_false ↦ (is_false, cs, t)
    ]
