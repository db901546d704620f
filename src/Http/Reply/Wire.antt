-- ===== src/Http/Reply/Wire.antt =====
-- HttpWrapper/src/reply.cpp: what a client reads from the socket: a status line, header lines and the content.
use reminder_suite.Prelude.{List, [], ◌∷◌, ◌++◌, append-nil, ◌≡◌, ◌∙◌, refl, ap, All, length}
use reminder_suite.Prelude.Fault.{ok}
use reminder_suite.Text.{Bytes, bytes}
use reminder_suite.Http.{Request, Header}
use reminder_suite.Http.Parser.{header_line_start, expecting_newline_3, good, consume, parse}
use reminder_suite.Http.Parser.Syntax.{IsHeader}
use reminder_suite.Http.Parser.Numbers.{number}
use reminder_suite.Http.Parser.HeaderLines.{header_lines, parse-header_lines}
use reminder_suite.Http.Reply.{
  StatusType, ok as status_ok, created, accepted, no_content, multiple_choices, moved_permanently,
  moved_temporarily, not_modified, bad_request, unauthorized, forbidden, not_found,
  internal_server_error, not_implemented, bad_gateway, service_unavailable, Reply, status_code,
  status_line, stock_content, header_buffers, to_buffers, crlf, content_length, stock_reply,
}
use reminder_suite.Http.Reply.Decimal.{to_decimal, number-to_decimal}

-- `async_write` of the buffers, one after the other.
abbrev pub wire_of : List Bytes → Bytes
wire_of [] = []
wire_of (b ∷ bs) = b ++ wire_of bs

wire-header_buffers :
    (hs : List Header) (rest : List Bytes)
    → wire_of (header_buffers hs ++ rest) ≡ header_lines hs (wire_of rest)
unfolding header_buffers
wire-header_buffers [] rest = refl
wire-header_buffers (h ∷ hs) rest =
    ap (λ t. h.name ++ (b':' ∷ b' ' ∷ (h.value ++ (b'\r' ∷ b'\n' ∷ t))))
      (wire-header_buffers hs rest)

end_of_headers :
    (req : Request) (rest : Bytes)
    → parse header_line_start req (b'\r' ∷ b'\n' ∷ rest)
      ≡ ok (record { result = good; state = expecting_newline_3; req = req; rest = rest })
unfolding parse consume
end_of_headers req rest = refl

-- For a reply whose headers are well formed: behind the status line, what is written reads as the headers of the reply and then its content:
-- the parser of requests, from where it expects headers, finds just those and leaves the content.
pub wire_headers :
    (rep : Reply) (req : Request)
    → All IsHeader rep.headers
    → (block : Bytes) × (wire_of (to_buffers rep) ≡ status_line rep.status ++ block)
      × (parse header_line_start (record req { headers = [] }) block
          ≡ ok (record {
            result = good;
            state = expecting_newline_3;
            req = record req { headers = rep.headers };
            rest = rep.content;
          }))
unfolding to_buffers
wire_headers rep req h = (
  header_lines rep.headers (crlf ++ rep.content),
  ap (λ t. status_line rep.status ++ t)
      (wire-header_buffers rep.headers (crlf ∷ rep.content ∷ []) ∙ rw append-nil),
  parse-header_lines rep.headers req [] (crlf ++ rep.content) h ∙ end_of_headers _ rep.content,
)

-- The status line names the number of the status.
pub status_line_code :
    (s : StatusType)
    → (reason : Bytes) × (status_line s
        ≡ bytes "HTTP/1.0 " ++ (to_decimal (status_code s) ++ (b' ' ∷ (reason ++ crlf))))
unfolding status_line status_code to_decimal
status_line_code status_ok = (bytes "OK", refl)
status_line_code created = (bytes "Created", refl)
status_line_code accepted = (bytes "Accepted", refl)
status_line_code no_content = (bytes "No Content", refl)
status_line_code multiple_choices = (bytes "Multiple Choices", refl)
status_line_code moved_permanently = (bytes "Moved Permanently", refl)
status_line_code moved_temporarily = (bytes "Moved Temporarily", refl)
status_line_code not_modified = (bytes "Not Modified", refl)
status_line_code bad_request = (bytes "Bad Request", refl)
status_line_code unauthorized = (bytes "Unauthorized", refl)
status_line_code forbidden = (bytes "Forbidden", refl)
status_line_code not_found = (bytes "Not Found", refl)
status_line_code internal_server_error = (bytes "Internal Server Error", refl)
status_line_code not_implemented = (bytes "Not Implemented", refl)
status_line_code bad_gateway = (bytes "Bad Gateway", refl)
status_line_code service_unavailable = (bytes "Service Unavailable", refl)

-- The first header tells the length of the content.
pub record IsFramed (rep : Reply) : Type 0 where
  pub length_header : Header
  pub others : List Header
  pub headers_are : rep.headers ≡ length_header ∷ others
  pub name_is : length_header.name ≡ bytes "Content-Length"
  pub value_is : number 0 length_header.value ≡ length rep.content

pub IsFramed-of_length :
    (s : StatusType) (content : Bytes) (others : List Header)
    → IsFramed (record {
      status = s;
      content = content;
      headers = content_length (length content) ∷ others;
    })
IsFramed-of_length s content others = record {
  length_header = content_length (length content);
  others = others;
  headers_are = refl;
  name_is = refl;
  value_is = number-to_decimal (length content);
}

pub stock_reply-IsFramed : (s : StatusType) → IsFramed (stock_reply s)
unfolding stock_reply
stock_reply-IsFramed s = IsFramed-of_length s (stock_content s) _
