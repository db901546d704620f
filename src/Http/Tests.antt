-- ===== src/Http/Tests.antt =====
-- Runs of the request handler and of the replies, and the theorems about them at small inputs.
use reminder_suite.Prelude.{
  ℕ, ◌==◌, Bool, [], ◌∷◌, ◌++◌, All, Option, none, some, if◌then◌else◌, ◌≡◌, refl, arith,
}
use reminder_suite.Prelude.Fault.{Result, ok}
use reminder_suite.Text.{Bytes, bytes, equal, c_str, starts_with}
use reminder_suite.Http.{Request}
use reminder_suite.Http.Parser.{
  header_line_start, expecting_newline_3, good, parse, is_char, is_ctl, is_tspecial,
}
use reminder_suite.Http.Parser.Syntax.{blank, IsHeader}
use reminder_suite.Http.Reply.{
  ok as status_ok, Reply, status_line, to_buffers, content_length, content_type,
}
use reminder_suite.Http.Reply.Wire.{wire_of, wire_headers, IsFramed}
use reminder_suite.Http.Url.{url_decode, read_hex}
use reminder_suite.Http.Url.RoundTrip.{url_encode, url_decode-url_encode}
use reminder_suite.Http.Handler.{
  has_dotdot, ends_with_slash, find_last, extension_of, with_index, read_loop, read_all, serve_file,
  handle_request,
}
use reminder_suite.Http.Rdb.{is_rdb_call}
use reminder_suite.Http.MimeTypes.{extension_to_type}
use reminder_suite.Http.Handler.Framing.{read_all_lem, handle_request-IsFramed}
use reminder_suite.Http.Handler.Files.{IsInside, handle_request_inside}

abbrev new_reply : Reply
new_reply = record { status = status_ok; headers = []; content = [] }

abbrev short_reply : Reply
short_reply = record {
  status = status_ok;
  headers = (record { name = bytes "Len"; value = bytes "2" }) ∷ [];
  content = bytes "hi";
}

short_reply-IsHeader : All IsHeader short_reply.headers
unfolding is_char is_ctl is_tspecial
short_reply-IsHeader = (
  record { name_token = (refl, (refl, (refl, tt))); name_some = λ e. cc; value_text = (refl, tt) },
  tt,
)

wire_headers_example :
    (block : Bytes) × (wire_of (to_buffers short_reply) ≡ status_line status_ok ++ block)
    × (parse header_line_start (record (blank 1 0) { headers = [] }) block
        ≡ ok (record {
          result = good;
          state = expecting_newline_3;
          req = record (blank 1 0) { headers = short_reply.headers };
          rest = bytes "hi";
        }))
wire_headers_example = wire_headers short_reply (blank 1 0) short_reply-IsHeader

-- Letters stand, all else is written.
abbrev keep_a : ℕ → Bool
keep_a c = c == b'a'

url_decode-url_encode_example : url_decode (url_encode keep_a (bytes "a %")) ≡ some (bytes "a %")
url_decode-url_encode_example =
    url_decode-url_encode keep_a (bytes "a %") refl refl
      (omega arith, (omega arith, (omega arith, tt)))

decode_short : url_decode (bytes "/a%2") ≡ none
unfolding url_decode read_hex
decode_short = refl

-- One file, "/www/index.html", and a second file system that also has the file beside the root.
abbrev one_file : Bytes → Option Bytes
one_file p = if equal p (bytes "/www/index.html") then some (bytes "<p>") else none

abbrev no_call : ℕ → Bytes → Result (ℕ × Option Bytes)
no_call n request = ok (n, none)

abbrev asking : Bytes → Request
asking uri = record (blank 1 0) { method = bytes "GET"; uri = uri }

abbrev index_reply : Reply
index_reply = record {
  status = status_ok;
  content = bytes "<p>";
  headers = content_length 3 ∷ content_type (bytes "text/html") ∷ [];
}

read_all_lem_example : read_all (bytes "ab") (bytes "cd") ≡ bytes "ab" ++ bytes "cd"
read_all_lem_example = read_all_lem (bytes "ab") (bytes "cd")

answer_index :
    handle_request one_file no_call (bytes "/www") 0 (asking (bytes "/")) new_reply
    ≡ ok (0, index_reply)
unfolding handle_request serve_file url_decode has_dotdot with_index ends_with_slash starts_with
    c_str equal extension_of find_last read_all read_loop is_rdb_call extension_to_type
answer_index = refl

handle_request-IsFramed_example : IsFramed index_reply
handle_request-IsFramed_example =
    handle_request-IsFramed one_file no_call (bytes "/www") 0 new_reply refl (asking (bytes "/")) 0
      index_reply answer_index

abbrev two_files : Bytes → Option Bytes
two_files p = if starts_with (bytes "/www") p then one_file p else some (bytes "secret")

same_inside : (p : Bytes) → IsInside (bytes "/www") p → one_file p ≡ two_files p
unfolding starts_with
same_inside p inside = rw inside.splits refl

handle_request_inside_example :
    handle_request one_file no_call (bytes "/www") 0 (asking (bytes "/%2e%2e/etc")) new_reply
    ≡ handle_request two_files no_call (bytes "/www") 0 (asking (bytes "/%2e%2e/etc")) new_reply
handle_request_inside_example =
    handle_request_inside one_file two_files no_call (bytes "/www")
      (omega arith, (omega arith, (omega arith, (omega arith, tt)))) same_inside 0 new_reply
      (asking (bytes "/%2e%2e/etc"))
