-- ===== src/Server/RequestParser/Tests.antt =====
-- Concrete runs of the parser, and its theorems at concrete requests.
use osrm_backend.Prelude.{ℕ, ◌≡◌, refl, List, [], ◌∷◌, ◌++◌, All, arith, codes}
use osrm_backend.Server.RequestParser.{
  Request, Header, no_compression, gzip_rfc1952, is_true, is_false, expecting_newline_3, Session,
  new_parser, parse, consume, is_rejected, is_ctl, is_digit, use_header, accept_encoding,
}
use osrm_backend.Server.RequestParser.Grammar.{
  IsUriChar, Word, Line, IsLine, request_text, sess, add_uri,
}
use osrm_backend.Server.RequestParser.Accept.{
  last_encoding, last_header, read_headers, parse-request_text,
}
use osrm_backend.Server.RequestParser.States.{IsValid, parse-IsValid}

abbrev no_request : Request
no_request = record { uri = []; referrer = []; agent = [] }

abbrev no_header : Header
no_header = record { name = []; value = [] }

abbrev get : Word
get = record { first = b'G'; others = codes "ET" }

abbrev one : Word
one = record { first = b'1'; others = [] }

abbrev agent_line : Line
agent_line = record {
  name = record { first = b'U'; others = codes "ser-Agent" };
  value = codes "cu";
}

abbrev encoding_line : Line
encoding_line = record {
  name = record { first = b'A'; others = codes "ccept-Encoding" };
  value = codes "deflate, gzip";
}

abbrev lines : List Line
lines = agent_line ∷ encoding_line ∷ []

abbrev text : List ℕ
text = request_text get (codes "/viaroute?loc=1") one one lines (codes "more")

abbrev outcome : Session
outcome = record {
  state = expecting_newline_3;
  header = record { name = codes "Accept-Encoding"; value = codes "deflate, gzip" };
  req = record { uri = codes "/viaroute?loc=1"; referrer = []; agent = codes "cu" };
  compression_type = gzip_rfc1952;
}

parse-text : parse text (new_parser no_request no_compression) ≡ (is_true, codes "more", outcome)
unfolding parse consume new_parser is_rejected is_ctl is_digit use_header accept_encoding
parse-text = refl

parse_control :
    (parse (codes "GET /a" ++ (9 ∷ [])) (new_parser no_request no_compression)).0 ≡ is_false
unfolding parse consume new_parser is_rejected is_ctl is_digit use_header accept_encoding
parse_control = refl

target_ok : All IsUriChar (codes "/viaroute?loc=1")
unfolding is_ctl
target_ok = assumption (refl, tt)

lines_ok : All IsLine lines
unfolding is_rejected
lines_ok = assumption (refl, tt)

parse-request_text_example : parse text (new_parser no_request no_compression) ≡ (
  is_true,
  codes "more",
  sess expecting_newline_3
      (last_header no_header lines)
      (read_headers (add_uri no_request (codes "/viaroute?loc=1")) lines)
      (last_encoding no_compression lines),
)
unfolding is_rejected is_ctl is_digit
parse-request_text_example =
    parse-request_text get (codes "/viaroute?loc=1") one one lines (codes "more") no_request
      no_compression (refl, (refl, (refl, tt))) target_ok (refl, tt) (refl, tt) lines_ok

new_parser-IsValid : IsValid (new_parser no_request no_compression)
unfolding new_parser
new_parser-IsValid = ground arith

parse-IsValid_example : IsValid (parse text (new_parser no_request no_compression)).2
parse-IsValid_example = parse-IsValid text (new_parser no_request no_compression) new_parser-IsValid
