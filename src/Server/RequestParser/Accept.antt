-- ===== src/Server/RequestParser/Accept.antt =====
-- What the parser reads from a request of the right form.
use osrm_backend.Prelude.{
  ℕ, ◌≡◌, refl, ◌∙◌, List, [], ◌∷◌, ◌++◌, arith, All, if◌then◌else◌, text_eq, codes, contains,
}
use osrm_backend.Server.RequestParser.{
  CompressionType, Header, Request, header_line_start, expecting_newline_3, is_true, consume, parse,
  use_header, accept_encoding, new_parser, gzip_rfc1952, deflate_rfc1951,
}
use osrm_backend.Server.RequestParser.Grammar.{
  IsToken, IsUriChar, IsDigit, Word, AllOf, Line, IsLine, header_of, line_text, lines_text,
  version_text, request_text, sess, add_uri, method_run, name_run, value_run, version_run, uri_run,
  token_ne,
}

-- The last value of the headers called `n`, or `d` if there is none.
abbrev pub last_value : List ℕ → List ℕ → List Line → List ℕ
last_value n d [] = d
last_value n d (l ∷ ls) = last_value n (if text_eq (header_of l).name n then l.value else d) ls

-- The compression that a header asks for, gzip before deflate, or `ct`.
abbrev pub asked_encoding : Line → CompressionType → CompressionType
asked_encoding l ct =
    if text_eq (header_of l).name (codes "Accept-Encoding")
    then (if contains l.value (codes "gzip")
        then gzip_rfc1952
        else if contains l.value (codes "deflate")
        then deflate_rfc1951
        else ct)
    else ct

-- The compression that the last Accept-Encoding header with a known method asks for.
abbrev pub last_encoding : CompressionType → List Line → CompressionType
last_encoding ct [] = ct
last_encoding ct (l ∷ ls) = last_encoding (asked_encoding l ct) ls

-- The last header.
abbrev pub last_header : Header → List Line → Header
last_header h [] = h
last_header h (l ∷ ls) = last_header (header_of l) ls

abbrev pub read_headers : Request → List Line → Request
read_headers r ls = record {
  uri = r.uri;
  referrer = last_value (codes "Referer") r.referrer ls;
  agent = last_value (codes "User-Agent") r.agent ls;
}

accept_encoding-asked :
    (l : Line) (ct : CompressionType) → accept_encoding (header_of l) ct ≡ asked_encoding l ct
unfolding accept_encoding
accept_encoding-asked l ct = ground arith

line_run :
    (l : Line) (rest : List ℕ) (h : Header) (r : Request) (ct : CompressionType)
    → IsLine l
    → parse (line_text l rest) (sess header_line_start h r ct)
      ≡ parse rest (sess header_line_start (header_of l) (use_header h r) (accept_encoding h ct))
unfolding parse consume
line_run l rest h r ct ok = ground (
  arith,
  ok.0.0,
  token_ne l.name.first,
  name_run (use_header h r) (accept_encoding h ct) l.name.others (l.value ++ (13 ∷ 10 ∷ rest))
      (l.name.first ∷ []) ok.0.1,
  value_run (use_header h r) (accept_encoding h ct) l.value rest (l.name.first ∷ l.name.others) []
      ok.1,
)

lines_run :
    (ls : List Line) (rest : List ℕ) (h : Header) (r : Request) (ct : CompressionType)
    → All IsLine ls
    → parse (lines_text ls rest) (sess header_line_start h r ct) ≡ (
      is_true,
      rest,
      sess expecting_newline_3
          (last_header h ls)
          (read_headers (use_header h r) ls)
          (last_encoding (accept_encoding h ct) ls),
    )
unfolding parse consume use_header
lines_run [] rest h r ct ok = refl
lines_run (l ∷ ls) rest h r ct ok =
    line_run l (lines_text ls rest) h r ct ok.0
    ∙ rw (← accept_encoding-asked l (accept_encoding h ct))
        (lines_run ls rest (header_of l) (use_header h r) (accept_encoding h ct) ok.1)

-- On a request of the form "METHOD target HTTP/x.y", header lines and an empty line, a new parser
-- answers true exactly behind the empty line, whatever follows. It appends the target to the
-- request's URI, takes the values of the last Referer and User-Agent headers, and the compression of the last
-- Accept-Encoding header that names one.
pub parse-request_text :
    (m : Word) (target : List ℕ) (major minor : Word) (ls : List Line) (rest : List ℕ)
    (req : Request) (ct : CompressionType)
    → AllOf IsToken m
    → All IsUriChar target
    → AllOf IsDigit major
    → AllOf IsDigit minor
    → All IsLine ls
    → parse (request_text m target major minor ls rest) (new_parser req ct) ≡ (
      is_true,
      rest,
      sess expecting_newline_3
          (last_header (record { name = []; value = [] }) ls)
          (read_headers (add_uri req target) ls)
          (last_encoding ct ls),
    )
unfolding parse consume new_parser use_header accept_encoding
parse-request_text m target major minor ls rest req ct hm ht ha hb hl =
    ground (
      arith,
      hm.0,
      method_run req ct m.others (target ++ (b' ' ∷ version_text major minor (lines_text ls rest)))
          empty hm.1,
    )
    ∙ uri_run target (version_text major minor (lines_text ls rest)) empty req ct ht
    ∙ version_run (add_uri req target) ct major minor (lines_text ls rest) empty ha hb
    ∙ lines_run ls rest empty (add_uri req target) ct hl
  where
    empty : Header
    empty = record { name = []; value = [] }
