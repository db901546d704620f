-- ===== src/Http/Parser/RoundTrip.antt =====
-- HttpWrapper/src/request_parser.cpp: requests as text, and the parser on that text.
use reminder_suite.Prelude.{ℕ, [], ◌∷◌, ◌≡◌, ◌∙◌, refl}
use reminder_suite.Prelude.Fault.{ok}
use reminder_suite.Text.{Bytes}
use reminder_suite.Http.{Request}
use reminder_suite.Http.Parser.{
  method_start, header_line_start, expecting_newline_3, good, consume, parse,
}
use reminder_suite.Http.Parser.Syntax.{IsWellFormed, blank}
use reminder_suite.Http.Parser.Numbers.{IsVersion, number}
use reminder_suite.Http.Parser.RequestLine.{request_line, parse-request_line}
use reminder_suite.Http.Parser.HeaderLines.{header_lines, parse-header_lines}

-- A request as a client sends it, with these digits for the version, and what follows it.
abbrev pub print_request : Request → Bytes → Bytes → Bytes → Bytes
print_request req major minor rest =
    request_line req major minor (header_lines req.headers (b'\r' ∷ b'\n' ∷ rest))

parse_end :
    (req : Request) (rest : Bytes)
    → parse header_line_start req (b'\r' ∷ b'\n' ∷ rest)
      ≡ ok (record { result = good; state = expecting_newline_3; req = req; rest = rest })
unfolding parse consume
parse_end req rest = refl

-- A well-formed request whose version numbers are printed with digits that stay clear of the
-- largest `int` is accepted: from a new parser the request is read back, whatever the numbers in
-- memory were before, and the bytes that follow the request are left.
pub parse-print_request :
    (req : Request) (major minor rest : Bytes) (a b : ℕ)
    → IsWellFormed req
    → IsVersion major
    → IsVersion minor
    → number 0 major ≡ req.http_version_major
    → number 0 minor ≡ req.http_version_minor
    → parse method_start (blank a b) (print_request req major minor rest)
      ≡ ok (record { result = good; state = expecting_newline_3; req = req; rest = rest })
parse-print_request req major minor rest a b w va vb ea eb =
    parse-request_line req major minor _ a b w.method_token w.method_some w.uri_bytes va vb ea eb
    ∙ parse-header_lines req.headers req [] _ w.headers_fine
    ∙ parse_end req rest
