-- ===== src/Http/Parser/RequestLine.antt =====
-- Reading back a request line.
use reminder_suite.Prelude.{
  ℕ, false, [], ◌∷◌, ◌++◌, append_assoc, append-nil, ◌==◌, ◌≡◌, ◌≢◌, ◌∙◌, refl, arith, All,
}
use reminder_suite.Text.{Bytes, bytes}
use reminder_suite.Http.{Request}
use reminder_suite.Http.Parser.{
  method_start, method, uri, http_version_h, http_version_major_start, expecting_newline_1,
  header_line_start, consume, parse, more, is_ctl, is_tspecial,
}
use reminder_suite.Http.Parser.Syntax.{IsToken, IsUriByte, IsText, blank}
use reminder_suite.Http.Parser.Numbers.{
  IsVersion, number, parse-more, parse_major_start, parse_minor_start,
}

-- A token byte is none of the bytes that end a token.
pub token_plain :
    (c : ℕ)
    → IsToken c
    → ((c == b' ') ≡ false)
      × ((c == b':') ≡ false)
      × ((c == b'\r') ≡ false)
      × ((c == b'\t') ≡ false)
unfolding is_tspecial is_ctl
token_plain c h = ground arith

pub text_plain : (c : ℕ) → IsText c → (c == b'\r') ≡ false
unfolding is_ctl
text_plain c h = ground arith

abbrev with_method : Request → Bytes → Request
with_method req m = record req { method = m }

consume_method :
    (req : Request) (c : ℕ)
    → IsToken c
    → consume method req c ≡ more method (with_method req (req.method ++ c ∷ []))
unfolding consume
consume_method req c h = rw ((token_plain c h).0, h)

consume_method_start :
    (req : Request) (c : ℕ)
    → IsToken c
    → consume method_start req c ≡ more method (with_method req (req.method ++ c ∷ []))
unfolding consume
consume_method_start req c h = rw h

consume_method_end : (req : Request) → consume method req b' ' ≡ more uri req
unfolding consume
consume_method_end req = refl

parse_method :
    (m : Bytes) (req : Request) (rest : Bytes)
    → All IsToken m
    → parse method req (m ++ (b' ' ∷ rest)) ≡ parse uri (with_method req (req.method ++ m)) rest
parse_method [] req rest h = parse-more _ req b' ' rest (consume_method_end req) ∙ rw append-nil
parse_method (c ∷ cs) req rest h =
    parse-more _ req c (cs ++ (b' ' ∷ rest)) (consume_method req c h.0)
    ∙ parse_method cs (with_method req (req.method ++ c ∷ [])) rest h.1
    ∙ rw append_assoc

parse_method_start :
    (m : Bytes) (req : Request) (rest : Bytes)
    → m ≢ []
    → All IsToken m
    → parse method_start req (m ++ (b' ' ∷ rest))
      ≡ parse uri (with_method req (req.method ++ m)) rest
parse_method_start [] req rest ne h = absurd (ne refl)
parse_method_start (c ∷ cs) req rest ne h =
    parse-more _ req c (cs ++ (b' ' ∷ rest)) (consume_method_start req c h.0)
    ∙ parse_method cs (with_method req (req.method ++ c ∷ [])) rest h.1
    ∙ rw append_assoc

abbrev with_uri : Request → Bytes → Request
with_uri req u = record req { uri = u }

consume_uri :
    (req : Request) (c : ℕ)
    → IsUriByte c
    → consume uri req c ≡ more uri (with_uri req (req.uri ++ c ∷ []))
unfolding consume
consume_uri req c h = rw (h.0, h.1)

consume_uri_end : (req : Request) → consume uri req b' ' ≡ more http_version_h req
unfolding consume
consume_uri_end req = refl

parse_uri :
    (u : Bytes) (req : Request) (rest : Bytes)
    → All IsUriByte u
    → parse uri req (u ++ (b' ' ∷ rest)) ≡ parse http_version_h (with_uri req (req.uri ++ u)) rest
parse_uri [] req rest h = parse-more _ req b' ' rest (consume_uri_end req) ∙ rw append-nil
parse_uri (c ∷ cs) req rest h =
    parse-more _ req c (cs ++ (b' ' ∷ rest)) (consume_uri req c h.0)
    ∙ parse_uri cs (with_uri req (req.uri ++ c ∷ [])) rest h.1
    ∙ rw append_assoc

abbrev with_version : Request → ℕ → ℕ → Request
with_version req a b = record req { http_version_major = a; http_version_minor = b }

parse_http :
    (req : Request) (rest : Bytes)
    → parse http_version_h req (bytes "HTTP/" ++ rest)
      ≡ parse http_version_major_start (with_version req 0 0) rest
unfolding parse consume
parse_http req rest = refl

parse_newline :
    (req : Request) (rest : Bytes)
    → parse expecting_newline_1 req (b'\n' ∷ rest) ≡ parse header_line_start req rest
unfolding parse consume
parse_newline req rest = refl

-- A request line with these digits for the version, and what follows it.
abbrev pub request_line : Request → Bytes → Bytes → Bytes → Bytes
request_line req major minor rest =
    req.method
    ++ (b' '
        ∷ (req.uri
            ++ (b' ' ∷ (bytes "HTTP/" ++ (major ++ (b'.' ∷ (minor ++ (b'\r' ∷ b'\n' ∷ rest))))))))

abbrev pub without_headers : Request → Request
without_headers req = record req { headers = [] }

pub parse-request_line :
    (req : Request) (major minor rest : Bytes) (a b : ℕ)
    → All IsToken req.method
    → req.method ≢ []
    → All IsUriByte req.uri
    → IsVersion major
    → IsVersion minor
    → number 0 major ≡ req.http_version_major
    → number 0 minor ≡ req.http_version_minor
    → parse method_start (blank a b) (request_line req major minor rest)
      ≡ parse header_line_start (without_headers req) rest
parse-request_line req major minor rest a b m ne u va vb ea eb =
    parse_method_start req.method (blank a b) _ ne m
    ∙ parse_uri req.uri (with_method (blank a b) req.method) _ u
    ∙ parse_http (with_uri (with_method (blank a b) req.method) req.uri) _
    ∙ parse_major_start major
        (with_version (with_uri (with_method (blank a b) req.method) req.uri) 0 0) _ va.some_digit
        va.digits va.fits
    ∙ parse_minor_start minor
        (with_version (with_uri (with_method (blank a b) req.method) req.uri) (number 0 major) 0) _
        vb.some_digit vb.digits vb.fits
    ∙ parse_newline _ rest
    ∙ rw (ea, eb)
