-- ===== src/Server/RequestParser/States.antt =====
-- The states that a parser reaches, and what a request holds.
use osrm_backend.Prelude.{ℕ, ◌≡◌, ◌≢◌, refl, List, [], ◌∷◌, ◌++◌, arith, All}
use osrm_backend.Server.RequestParser.{
  State, uri_start, uri, header_lws, Session, consume, consume_at, parse, header_line_start,
  header_name, header_value, use_header,
}
use osrm_backend.Server.RequestParser.Grammar.{IsUriChar, IsToken, IsValueChar}

-- The invariant of a parser: the characters of what it has stored are those that its state machine
-- takes for it, and it is in neither of the states that no case of the switch leads to.
pub record IsValid (s : Session) : Type 0 where
  pub uri_clean : All IsUriChar s.req.uri
  pub name_clean : All IsToken s.header.name
  pub value_clean : All IsValueChar s.header.value
  pub no_uri_start : s.state ≢ uri_start
  pub no_header_lws : s.state ≢ header_lws

All-snoc : (P : ℕ → Type 0) (a : List ℕ) (c : ℕ) → All P a → P c → All P (a ++ (c ∷ []))
All-snoc P [] c h p = (p, tt)
All-snoc P (x ∷ a) c h p = (h.0, All-snoc P a c h.1 p)

step-IsValid :
    (st : State) (c : ℕ) (s : Session) → IsValid s → s.state ≡ st → IsValid (consume_at st c s).1
unfolding consume
step-IsValid uri_start c s v e = absurd (v.no_uri_start e)
step-IsValid header_lws c s v e = absurd (v.no_header_lws e)
step-IsValid uri c s v e = ground (arith, All-snoc IsUriChar s.req.uri c v.uri_clean)
step-IsValid header_line_start c s v e = unfold use_header in ground arith
step-IsValid header_name c s v e = ground (arith, All-snoc IsToken s.header.name c v.name_clean)
step-IsValid header_value c s v e =
    ground (arith, All-snoc IsValueChar s.header.value c v.value_clean)
step-IsValid _ c s v e = ground arith

consume-IsValid : (c : ℕ) (s : Session) → IsValid s → IsValid (consume c s).1
unfolding consume
consume-IsValid c s v = step-IsValid s.state c s v refl

-- From a valid session on, whatever is parsed and however it ends: the stored target holds no space
-- and no control character, the name of the header being read no separator and no control
-- character, its value no control character, and the states uri_start and header_lws are never
-- entered.
pub parse-IsValid : (a : List ℕ) (s : Session) → IsValid s → IsValid (parse a s).2
unfolding parse
parse-IsValid [] s v = v
parse-IsValid (c ∷ a) s v =
    let v' = consume-IsValid c s v in ground (arith, parse-IsValid a (consume c s).1 v')
