-- ===== src/Http/Handler.antt =====
-- HttpWrapper/src/request_handler.cpp: what a parsed request is answered.
--
-- The file system is a function from the C string given to `ifstream` to what can be read there.
pub mod Files
pub mod Framing
use mathlib.Core.Option
use reminder_suite.Prelude.{
  ℕ, zero, suc, Bool, true, false, not, ◌&&◌, ◌||◌, List, [], ◌∷◌, ◌++◌, Option, none, some, length,
  take, drop, ltb, ◌==◌, if◌then◌else◌,
}
use reminder_suite.Prelude.Fault.{Result, ok, ◌>>=◌}
use reminder_suite.Text.{Bytes, bytes, c_str}
use reminder_suite.Http.{Header, Request}
use reminder_suite.Http.MimeTypes.{extension_to_type}
use reminder_suite.Http.Url.{url_decode}
use reminder_suite.Http.Rdb.{is_rdb_call, is_valid_call}
use reminder_suite.Http.Reply.{
  StatusType, bad_request, not_found, Reply, content_length, content_type, stock_reply,
}

-- `request_path.find("..") != npos`
unfoldable pub has_dotdot : Bytes → Bool
has_dotdot [] = false
has_dotdot (a ∷ []) = false
has_dotdot (a ∷ b ∷ cs) = (a == b'.' && b == b'.') || has_dotdot (b ∷ cs)

abbrev pub starts_with_slash : Bytes → Bool
starts_with_slash [] = false
starts_with_slash (c ∷ cs) = c == b'/'

-- `request_path[request_path.size() - 1] == '/'`
unfoldable pub ends_with_slash : Bytes → Bool
ends_with_slash [] = false
ends_with_slash (c ∷ []) = c == b'/'
ends_with_slash (c ∷ d ∷ cs) = ends_with_slash (d ∷ cs)

abbrev or_here : Bool → Option ℕ → Option ℕ
or_here here none = if here then some 0 else none
or_here here (some i) = some (suc i)

-- `find_last_of`; `none` is `npos`.
unfoldable pub find_last : ℕ → Bytes → Option ℕ
find_last sep [] = none
find_last sep (c ∷ cs) = or_here (c == sep) (find_last sep cs)

-- `npos` is larger than every position.
abbrev extension_from : Bytes → Option ℕ → Option ℕ → Bytes
extension_from path none slash = []
extension_from path (some dot) none = []
extension_from path (some dot) (some slash) = if ltb slash dot then drop (suc dot) path else []

unfoldable pub extension_of : Bytes → Bytes
unfolding find_last
extension_of path = extension_from path (find_last b'.' path) (find_last b'/' path)

unfoldable pub with_index : Bytes → Bytes
unfolding ends_with_slash
with_index path = if ends_with_slash path then path ++ bytes "index.html" else path

-- `while (is.read(buf, sizeof(buf)).gcount() > 0) rep.content.append(buf, is.gcount())`, on what
-- is left of the stream. Each round takes a byte at least.
unfoldable pub read_loop : ℕ → ℕ → Bytes → Bytes → Bytes
read_loop size zero content rest = content
read_loop size (suc fuel) content rest = elim (take size rest) [
  | [] ↦ content
  | c ∷ cs ↦ read_loop size fuel (content ++ (c ∷ cs)) (drop size rest)
]

abbrev pub buffer_size : ℕ
buffer_size = 512

-- The fuel is one round more than the bytes of the file.
unfoldable pub read_all : Bytes → Bytes → Bytes
unfolding read_loop
read_all content file = read_loop buffer_size (suc (length file)) content file

abbrev file_reply : Reply → Bytes → Bytes → Reply
file_reply rep path file =
    let content = read_all rep.content file in
    record {
      status = StatusType.ok;
      content = content;
      headers =
          content_length (length content)
          ∷ content_type (extension_to_type (extension_of path))
          ∷ [];
    }

abbrev opened_reply : Reply → Bytes → Option Bytes → Reply
opened_reply rep path none = stock_reply not_found
opened_reply rep path (some file) = file_reply rep path file

abbrev rdb_reply {ℓ} : {S : Type ℓ} → Reply → S × Option Bytes → S × Reply
rdb_reply rep (s, none) = (s, stock_reply bad_request)
rdb_reply rep (s, some response) = (
  s,
  record {
    status = StatusType.ok;
    content = rep.content ++ response;
    headers =
        content_length (length response)
        ∷ content_type (bytes "application/json")
        ∷ (record { name = bytes "Access-Control-Allow-Origin"; value = bytes "*" })
        ∷ [];
  },
)

module _ {S : Type 0} (open_file : Bytes → Option Bytes)
    (parse_call : S → Bytes → Result (S × Option Bytes)) (doc_root : Bytes) where
  unfoldable pub serve_file : Reply → Bytes → Reply
  serve_file rep path =
      let full = with_index path in opened_reply rep full (open_file (c_str (doc_root ++ full)))

  unfoldable pub serve_rdb : S → Reply → Bytes → Result (S × Reply)
  serve_rdb s rep path =
      if is_valid_call path
      then (do r ← parse_call s path; ok (rdb_reply rep r))
      else ok (s, stock_reply bad_request)

  abbrev serve_path : S → Reply → Bytes → Result (S × Reply)
  serve_path s rep path =
      if not (starts_with_slash path) || has_dotdot path
      then ok (s, stock_reply bad_request)
      else if is_rdb_call path
      then serve_rdb s rep path
      else ok (s, serve_file rep path)

  abbrev serve_decoded : S → Reply → Option Bytes → Result (S × Reply)
  serve_decoded s rep none = ok (s, stock_reply bad_request)
  serve_decoded s rep (some path) = serve_path s rep path

  -- `handle_request(req, rep)`: what lies behind the data server's connection, and the reply.
  unfoldable pub handle_request : S → Request → Reply → Result (S × Reply)
  unfolding serve_file serve_rdb
  handle_request s req rep = serve_decoded s rep (url_decode req.uri)
