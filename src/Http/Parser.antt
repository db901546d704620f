-- ===== src/Http/Parser.antt =====
-- HttpWrapper/src/request_parser.cpp and request_parser.hpp: the incremental parser of requests.
--
-- A byte is its value below 256. Where `char` is signed, a byte from 128 is negative as an `int`;
-- the tests below give such a byte the same answer either way. Signed overflow of a version number
-- and `headers.back()` of no headers are undefined behaviour.
pub mod Chunks
pub mod Safety
pub mod Syntax
pub mod Numbers
pub mod RequestLine
pub mod HeaderLines
pub mod RoundTrip
pub mod Tests
use reminder_suite.Prelude.{
  ℕ, ◌+◌, ◌-◌, ◌*◌, ◌^◌, Bool, true, false, not, ◌&&◌, ◌||◌, List, [], ◌∷◌, ◌++◌, ltb, leb, ◌==◌,
  if◌then◌else◌,
}
use reminder_suite.Prelude.Fault.{Result, ok, err, undefined, ◌>>=◌}
use reminder_suite.Text.{Bytes}
use reminder_suite.Http.{Header, Request}

pub data ResultType : Type 0 where
  good bad indeterminate : ResultType

pub data State : Type 0 where
  method_start method uri http_version_h http_version_t_1 http_version_t_2 : State
  http_version_p http_version_slash http_version_major_start http_version_major : State
  http_version_minor_start http_version_minor expecting_newline_1 header_line_start : State
  header_lws header_name space_before_header_value header_value : State
  expecting_newline_2 expecting_newline_3 : State

unfoldable pub is_char : ℕ → Bool
is_char c = leb c 127

unfoldable pub is_ctl : ℕ → Bool
is_ctl c = leb c 31 || c == 127

unfoldable pub is_tspecial : ℕ → Bool
is_tspecial c =
    c == b'('
    || c == b')'
    || c == b'<'
    || c == b'>'
    || c == b'@'
    || c == b','
    || c == b';'
    || c == b':'
    || c == b'\\'
    || c == b'"'
    || c == b'/'
    || c == b'['
    || c == b']'
    || c == b'?'
    || c == b'='
    || c == b'{'
    || c == b'}'
    || c == b' '
    || c == b'\t'

unfoldable pub is_digit : ℕ → Bool
is_digit c = leb b'0' c && leb c b'9'

-- One past the largest `int`.
abbrev pub int_limit : ℕ
int_limit = 2 ^ 31

-- `n * 10 + input - '0'`, evaluated from the left
abbrev pub add_digit : ℕ → ℕ → Result ℕ
add_digit n c = if ltb (n * 10 + c) int_limit then ok (n * 10 + c - b'0') else err undefined

-- An update of `headers.back()`.
unfoldable pub update_back : (Header → Header) → List Header → Result (List Header)
update_back f [] = err undefined
update_back f (h ∷ []) = ok (f h ∷ [])
update_back f (h ∷ k ∷ hs) = do rest ← update_back f (k ∷ hs); ok (h ∷ rest)

abbrev pub push_name : ℕ → Header → Header
push_name c h = record h { name = h.name ++ c ∷ [] }

abbrev pub push_value : ℕ → Header → Header
push_value c h = record h { value = h.value ++ c ∷ [] }

-- What a call of `consume` returns and leaves.
pub record Consumed : Type 0 where
  pub result : ResultType
  pub state : State
  pub req : Request

abbrev pub more : State → Request → Result Consumed
more st req = ok (record { result = indeterminate; state = st; req = req })

abbrev pub refuse : State → Request → Result Consumed
refuse st req = ok (record { result = bad; state = st; req = req })

-- A fixed byte of "HTTP/" or of a line end.
abbrev pub expect : Bool → State → State → Request → Result Consumed
expect fits st next req = if fits then more next req else refuse st req

abbrev pub add_major : Request → ℕ → Result Consumed
add_major req c = do
  n ← add_digit req.http_version_major c
  more http_version_major (record req { http_version_major = n })

abbrev pub add_minor : Request → ℕ → Result Consumed
add_minor req c = do
  n ← add_digit req.http_version_minor c
  more http_version_minor (record req { http_version_minor = n })

abbrev pub add_name : Request → ℕ → Result Consumed
add_name req c = do
  hs ← update_back (push_name c) req.headers
  more header_name (record req { headers = hs })

abbrev pub add_value : Request → ℕ → Result Consumed
add_value req c = do
  hs ← update_back (push_value c) req.headers
  more header_value (record req { headers = hs })

abbrev pub no_headers : List Header → Bool
no_headers [] = true
no_headers (h ∷ hs) = false

-- The digits of the minor version.
abbrev pub at_minor : Request → ℕ → Result Consumed
at_minor req c =
    if c == b'\r'
    then more expecting_newline_1 req
    else if is_digit c
    then add_minor req c
    else refuse http_version_minor req

-- The first byte of a line of headers, or of the line that ends them.
abbrev pub at_line_start : Request → ℕ → Result Consumed
at_line_start req c =
    if c == b'\r'
    then more expecting_newline_3 req
    else if not (no_headers req.headers) && (c == b' ' || c == b'\t')
    then more header_lws req
    else if not (is_char c) || is_ctl c || is_tspecial c
    then refuse header_line_start req
    else add_name (record req { headers = req.headers ++ (record { name = []; value = [] }) ∷ [] })
        c

-- A continuation line.
abbrev pub at_lws : Request → ℕ → Result Consumed
at_lws req c =
    if c == b'\r'
    then more expecting_newline_2 req
    else if c == b' ' || c == b'\t'
    then more header_lws req
    else if is_ctl c
    then refuse header_lws req
    else add_value req c

-- A byte of the name of a header.
abbrev pub at_name : Request → ℕ → Result Consumed
at_name req c =
    if c == b':'
    then more space_before_header_value req
    else if not (is_char c) || is_ctl c || is_tspecial c
    then refuse header_name req
    else add_name req c

-- A byte of the value of a header.
abbrev pub at_value : Request → ℕ → Result Consumed
at_value req c =
    if c == b'\r'
    then more expecting_newline_2 req
    else if is_ctl c
    then refuse header_value req
    else add_value req c

unfoldable pub consume : State → Request → ℕ → Result Consumed
consume method_start req c =
    if not (is_char c) || is_ctl c || is_tspecial c
    then refuse method_start req
    else more method (record req { method = req.method ++ c ∷ [] })
consume method req c =
    if c == b' '
    then more uri req
    else if not (is_char c) || is_ctl c || is_tspecial c
    then refuse method req
    else more method (record req { method = req.method ++ c ∷ [] })
consume uri req c =
    if c == b' '
    then more http_version_h req
    else if is_ctl c
    then refuse uri req
    else more uri (record req { uri = req.uri ++ c ∷ [] })
consume http_version_h req c = expect (c == b'H') http_version_h http_version_t_1 req
consume http_version_t_1 req c = expect (c == b'T') http_version_t_1 http_version_t_2 req
consume http_version_t_2 req c = expect (c == b'T') http_version_t_2 http_version_p req
consume http_version_p req c = expect (c == b'P') http_version_p http_version_slash req
consume http_version_slash req c =
    if c == b'/'
    then more http_version_major_start
        (record req { http_version_major = 0; http_version_minor = 0 })
    else refuse http_version_slash req
consume http_version_major_start req c =
    if is_digit c then add_major req c else refuse http_version_major_start req
consume http_version_major req c =
    if c == b'.'
    then more http_version_minor_start req
    else if is_digit c
    then add_major req c
    else refuse http_version_major req
consume http_version_minor_start req c =
    if is_digit c then add_minor req c else refuse http_version_minor_start req
consume http_version_minor req c = at_minor req c
consume expecting_newline_1 req c = expect (c == b'\n') expecting_newline_1 header_line_start req
consume header_line_start req c = at_line_start req c
consume header_lws req c = at_lws req c
consume header_name req c = at_name req c
consume space_before_header_value req c =
    expect (c == b' ') space_before_header_value header_value req
consume header_value req c = at_value req c
consume expecting_newline_2 req c = expect (c == b'\n') expecting_newline_2 header_line_start req
consume expecting_newline_3 req c =
    if c == b'\n'
    then ok (record { result = good; state = expecting_newline_3; req = req })
    else refuse expecting_newline_3 req

-- What `parse` returns, with the input from the returned iterator on, and what it leaves.
pub record Parsed : Type 0 where
  pub result : ResultType
  pub state : State
  pub req : Request
  pub rest : Bytes

unfoldable pub parse : State → Request → Bytes → Result Parsed
parse st req [] = ok (record { result = indeterminate; state = st; req = req; rest = [] })
parse st req (c ∷ cs) = do
  o ← consume st req c
  elim o.result [
    | indeterminate ↦ parse o.state o.req cs
    | good ↦ ok (record { result = good; state = o.state; req = o.req; rest = cs })
    | bad ↦ ok (record { result = bad; state = o.state; req = o.req; rest = cs })
  ]
