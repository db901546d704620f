-- ===== src/Http/Reply.antt =====
-- HttpWrapper/src/reply.cpp and reply.hpp: replies and how they are written to the socket.
pub mod Decimal
pub mod Wire
use reminder_suite.Prelude.{ℕ, List, [], ◌∷◌, ◌++◌, length}
use reminder_suite.Text.{Bytes, bytes}
use reminder_suite.Http.{Header}
use reminder_suite.Http.Reply.Decimal.{to_decimal}

pub data StatusType : Type 0 where
  ok created accepted no_content multiple_choices moved_permanently : StatusType
  moved_temporarily not_modified bad_request unauthorized forbidden not_found : StatusType
  internal_server_error not_implemented bad_gateway service_unavailable : StatusType

pub record Reply : Type 0 where
  pub status : StatusType
  pub headers : List Header
  pub content : Bytes

-- The values of the enumeration.
pub status_code : StatusType → ℕ
status_code ok = 200
status_code created = 201
status_code accepted = 202
status_code no_content = 204
status_code multiple_choices = 300
status_code moved_permanently = 301
status_code moved_temporarily = 302
status_code not_modified = 304
status_code bad_request = 400
status_code unauthorized = 401
status_code forbidden = 403
status_code not_found = 404
status_code internal_server_error = 500
status_code not_implemented = 501
status_code bad_gateway = 502
status_code service_unavailable = 503

-- `status_strings::to_buffer`
unfoldable pub status_line : StatusType → Bytes
status_line ok = bytes "HTTP/1.0 200 OK\r\n"
status_line created = bytes "HTTP/1.0 201 Created\r\n"
status_line accepted = bytes "HTTP/1.0 202 Accepted\r\n"
status_line no_content = bytes "HTTP/1.0 204 No Content\r\n"
status_line multiple_choices = bytes "HTTP/1.0 300 Multiple Choices\r\n"
status_line moved_permanently = bytes "HTTP/1.0 301 Moved Permanently\r\n"
status_line moved_temporarily = bytes "HTTP/1.0 302 Moved Temporarily\r\n"
status_line not_modified = bytes "HTTP/1.0 304 Not Modified\r\n"
status_line bad_request = bytes "HTTP/1.0 400 Bad Request\r\n"
status_line unauthorized = bytes "HTTP/1.0 401 Unauthorized\r\n"
status_line forbidden = bytes "HTTP/1.0 403 Forbidden\r\n"
status_line not_found = bytes "HTTP/1.0 404 Not Found\r\n"
status_line internal_server_error = bytes "HTTP/1.0 500 Internal Server Error\r\n"
status_line not_implemented = bytes "HTTP/1.0 501 Not Implemented\r\n"
status_line bad_gateway = bytes "HTTP/1.0 502 Bad Gateway\r\n"
status_line service_unavailable = bytes "HTTP/1.0 503 Service Unavailable\r\n"

-- `stock_replies::to_string`
unfoldable pub stock_content : StatusType → Bytes
stock_content ok = bytes ""
stock_content created =
    bytes "<html><head><title>Created</title></head><body><h1>201 Created</h1></body></html>"
stock_content accepted =
    bytes "<html><head><title>Accepted</title></head><body><h1>202 Accepted</h1></body></html>"
stock_content no_content =
    bytes "<html><head><title>No Content</title></head><body><h1>204 Content</h1></body></html>"
stock_content multiple_choices =
    bytes
      "<html><head><title>Multiple Choices</title></head><body><h1>300 Multiple Choices</h1></body></html>"
stock_content moved_permanently =
    bytes
      "<html><head><title>Moved Permanently</title></head><body><h1>301 Moved Permanently</h1></body></html>"
stock_content moved_temporarily =
    bytes
      "<html><head><title>Moved Temporarily</title></head><body><h1>302 Moved Temporarily</h1></body></html>"
stock_content not_modified =
    bytes
      "<html><head><title>Not Modified</title></head><body><h1>304 Not Modified</h1></body></html>"
stock_content bad_request =
    bytes
      "<html><head><title>Bad Request</title></head><body><h1>400 Bad Request</h1></body></html>"
stock_content unauthorized =
    bytes
      "<html><head><title>Unauthorized</title></head><body><h1>401 Unauthorized</h1></body></html>"
stock_content forbidden =
    bytes "<html><head><title>Forbidden</title></head><body><h1>403 Forbidden</h1></body></html>"
stock_content not_found =
    bytes "<html><head><title>Not Found</title></head><body><h1>404 Not Found</h1></body></html>"
stock_content internal_server_error =
    bytes
      "<html><head><title>Internal Server Error</title></head><body><h1>500 Internal Server Error</h1></body></html>"
stock_content not_implemented =
    bytes
      "<html><head><title>Not Implemented</title></head><body><h1>501 Not Implemented</h1></body></html>"
stock_content bad_gateway =
    bytes
      "<html><head><title>Bad Gateway</title></head><body><h1>502 Bad Gateway</h1></body></html>"
stock_content service_unavailable =
    bytes
      "<html><head><title>Service Unavailable</title></head><body><h1>503 Service Unavailable</h1></body></html>"

abbrev pub name_value_separator : Bytes
name_value_separator = b':' ∷ b' ' ∷ []

abbrev pub crlf : Bytes
crlf = b'\r' ∷ b'\n' ∷ []

header_buffers : List Header → List Bytes
header_buffers [] = []
header_buffers (h ∷ hs) = h.name ∷ name_value_separator ∷ h.value ∷ crlf ∷ header_buffers hs

unfoldable pub to_buffers : Reply → List Bytes
unfolding header_buffers status_line
to_buffers rep = status_line rep.status ∷ (header_buffers rep.headers ++ crlf ∷ rep.content ∷ [])

abbrev pub content_length : ℕ → Header
content_length n = record { name = bytes "Content-Length"; value = to_decimal n }

abbrev pub content_type : Bytes → Header
content_type t = record { name = bytes "Content-Type"; value = t }

unfoldable pub stock_reply : StatusType → Reply
unfolding stock_content
stock_reply status = record {
  status = status;
  content = stock_content status;
  headers = content_length (length (stock_content status)) ∷ content_type (bytes "text/html") ∷ [];
}
