-- ===== src/Http/Handler/Framing.antt =====
-- HttpWrapper/src/request_handler.cpp: the headers of a reply against its content.
use reminder_suite.Prelude.{
  ℕ, zero, suc, ◌<◌, Bool, true, false, not, ◌||◌, [], ◌∷◌, ◌++◌, append-nil, append_assoc, Option,
  none, some, length, take, drop, take-append-drop, length-drop, if◌then◌else◌, ◌≡◌, ◌∙◌, sym,
  arith,
}
use reminder_suite.Prelude.Fault.{Result, ok, err, ◌>>=◌}
use reminder_suite.Text.{Bytes}
use reminder_suite.Http.{Request}
use reminder_suite.Http.Url.{url_decode}
use reminder_suite.Http.Rdb.{is_rdb_call, is_valid_call}
use reminder_suite.Http.Reply.{bad_request, not_found, Reply}
use reminder_suite.Http.Reply.Wire.{IsFramed, IsFramed-of_length, stock_reply-IsFramed}
use reminder_suite.Http.Handler.{
  read_loop, read_all, with_index, has_dotdot, starts_with_slash, serve_file, opened_reply,
  rdb_reply, serve_rdb, serve_decoded, handle_request,
}

read_loop_lem :
    (m fuel : ℕ) (content rest : Bytes)
    → length rest < fuel
    → read_loop (suc m) fuel content rest ≡ content ++ rest
unfolding read_loop
read_loop_lem m zero content rest h = elim h [ ]
read_loop_lem m (suc f) content [] h = sym (append-nil content)
read_loop_lem m (suc f) content (c ∷ cs) h =
    read_loop_lem m f (content ++ (c ∷ take m cs)) (drop m cs) (omega (arith, length-drop m cs))
    ∙ rw (append_assoc, take-append-drop m cs)

-- Reading by buffers appends the whole file.
pub read_all_lem : (content file : Bytes) → read_all content file ≡ content ++ file
unfolding read_all
read_all_lem content file = read_loop_lem 511 (suc (length file)) content file (omega arith)

abbrev Frames {ℓ} : {S : Type ℓ} → Result (S × Reply) → Type 0
Frames (ok (s, rep)) = IsFramed rep
Frames (err e) = Unit {0}

module _ {S : Type 0} (open_file : Bytes → Option Bytes)
    (parse_call : S → Bytes → Result (S × Option Bytes)) (doc_root : Bytes) (s : S) (rep : Reply)
    (new : rep.content ≡ []) where
  serve_file-IsFramed :
      (path : Bytes) → IsFramed (serve_file open_file parse_call doc_root rep path)
  unfolding serve_file
  serve_file-IsFramed path = opened (open_file _)
    where
      opened : (o : Option Bytes) → IsFramed (opened_reply rep (with_index path) o)
      opened none = stock_reply-IsFramed not_found
      opened (some file) = IsFramed-of_length _ (read_all rep.content file) _

  rdb_reply-IsFramed : (r : S × Option Bytes) → IsFramed (rdb_reply rep r).1
  rdb_reply-IsFramed (s', none) = stock_reply-IsFramed bad_request
  rdb_reply-IsFramed (s', some response) = rw new (IsFramed-of_length _ response _)

  answered-IsFramed : (r : Result (S × Option Bytes)) → Frames (r >>= λ a. ok (rdb_reply rep a))
  answered-IsFramed (ok a) = rdb_reply-IsFramed a
  answered-IsFramed (err e) = tt

  if-Frames :
      (b : Bool) (x y : Result (S × Reply)) → Frames x → Frames y → Frames (if b then x else y)
  if-Frames true x y fx fy = fx
  if-Frames false x y fx fy = fy

  serve_rdb-Frames : (path : Bytes) → Frames (serve_rdb open_file parse_call doc_root s rep path)
  unfolding serve_rdb
  serve_rdb-Frames path =
      if-Frames (is_valid_call path) _ _ (answered-IsFramed (parse_call s path))
        (stock_reply-IsFramed bad_request)

  serve_decoded-Frames :
      (o : Option Bytes) → Frames (serve_decoded open_file parse_call doc_root s rep o)
  serve_decoded-Frames none = stock_reply-IsFramed bad_request
  serve_decoded-Frames (some path) =
      if-Frames (not (starts_with_slash path) || has_dotdot path) _ _
        (stock_reply-IsFramed bad_request)
        (if-Frames (is_rdb_call path) _ _ (serve_rdb-Frames path) (serve_file-IsFramed path))

  -- Every reply to a request, from a reply object with no content yet, announces in its first
  -- header the length of its content: for refusals, files and the answers of the data server.
  pub handle_request-IsFramed :
      (req : Request) (s' : S) (rep' : Reply)
      → handle_request open_file parse_call doc_root s req rep ≡ ok (s', rep')
      → IsFramed rep'
  unfolding handle_request
  handle_request-IsFramed req s' rep' e = rw e at (serve_decoded-Frames (url_decode req.uri))
