-- ===== src/Session.antt =====
-- Server/src/session.cpp: one client of the data server. A request is what one read delivered; the
-- response is what `do_write` hands to the socket.
pub mod Requests
pub mod Outcome
pub mod Database
pub mod Stored
pub mod Safety
pub mod Replies
pub mod Spec
pub mod Refinement
pub mod Conversation
mod Tests
use reminder_suite.Prelude.{Bool, true, false, ◌||◌, List, [], ◌∷◌, ◌++◌, ◌==◌, if◌then◌else◌}
use reminder_suite.Prelude.Fault.{Result, ok, err, out_of_range, ◌>>=◌}
use reminder_suite.Text.{Bytes, bytes, equal, tokens, c_str, before_first}
use reminder_suite.Provider.{DbLibrary}

-- `copy_if` of all but line ends
unfoldable pub drop_eol : Bytes → Bytes
drop_eol [] = []
drop_eol (c ∷ cs) = if c == b'\r' || c == b'\n' then drop_eol cs else c ∷ drop_eol cs

-- The lambda `buildError`; its argument is a C string.
abbrev pub build_error : Bytes → Bytes
build_error msg = c_str msg ++ b'\n' ∷ []

-- `do_write` ends every response with one more line end.
abbrev pub do_write : Bytes → Bytes
do_write response = response ++ b'\n' ∷ []

abbrev pub write_lines : List Bytes → Bytes
write_lines [] = []
write_lines (l ∷ ls) = l ++ (b'\n' ∷ write_lines ls)

-- `_request.erase(_request.begin())` if the request begins with a slash
abbrev pub drop_empty_first : List Bytes → List Bytes
drop_empty_first [] = []
drop_empty_first (p ∷ ps) = if equal p [] then ps else p ∷ ps

-- The parts of a request: the command and its arguments.
unfoldable pub request_parts : Bytes → List Bytes
unfolding drop_eol
request_parts request = drop_empty_first (tokens b'/' (drop_eol request))

-- `_request.size() > 2 ? _request.at(2) : ""`
abbrev pub field_argument : List Bytes → Bytes
field_argument [] = []
field_argument (field ∷ rest) = field

abbrev pub found_or_error : Bytes → Bytes → Bytes
found_or_error cmd [] = bytes "ERROR: Not found: " ++ cmd
found_or_error cmd (c ∷ cs) = c ∷ cs

abbrev pub set_entry_reply : Bool → Bytes
set_entry_reply true = bytes "Filed to set Entry: "
set_entry_reply false = build_error (bytes "SUCCESS")

abbrev pub set_field_reply : Bool → Bytes
set_field_reply true = build_error (bytes "SUCCESS")
set_field_reply false = bytes "Failed to set value: "

abbrev pub delete_reply : Bytes → Bool → Bytes
delete_reply name true = build_error (bytes "SUCCESS")
delete_reply name false = build_error (bytes "ERROR: Failed to delete " ++ name ++ bytes "; ")

abbrev pub commit_reply : Bool → Bytes
commit_reply true = build_error (bytes "SUCCESS")
commit_reply false = bytes "Failed to preserve DB: "

module _ {S : Type 0} (lib : DbLibrary S) where
  open lib use {fields, get_all, get, set_entry, set_field, erase, save}

  unfoldable pub run_get : S → Bytes → List Bytes → Result (S × Bytes)
  run_get s cmd [] = do (s', ls) ← get_all s; ok (s', write_lines ls)
  run_get s cmd (name ∷ rest) = do
    (s', r) ← get s name (field_argument rest)
    ok (s', found_or_error cmd r)

  unfoldable pub run_set : S → List Bytes → Result (S × Bytes)
  run_set s (entry ∷ []) = do
    (s', done) ← set_entry s (before_first b':' entry) entry
    ok (s', set_entry_reply done)
  run_set s (name ∷ field ∷ value ∷ []) = do
    (s', done) ← set_field s name field value
    ok (s', set_field_reply done)
  run_set s _ = ok (s, build_error (bytes "ERROR: set requires either 2 or 4 parameters"))

  -- `_request.at(1)` is not guarded by the size.
  unfoldable pub run_delete : S → List Bytes → Result (S × Bytes)
  run_delete s [] = err out_of_range
  run_delete s (name ∷ rest) = do (s', done) ← erase s name; ok (s', delete_reply name done)

  unfoldable pub run_commit : S → Result (S × Bytes)
  run_commit s = do (s', done) ← save s; ok (s', commit_reply done)

  abbrev run_fields : S → Result (S × Bytes)
  run_fields s = fields s

  unfoldable pub run_command : S → Bytes → List Bytes → Result (S × Bytes)
  unfolding run_get run_set run_delete run_commit
  run_command s cmd [] = ok (s, bytes "ERROR: Not valid query: " ++ cmd)
  run_command s cmd (verb ∷ args) =
      if equal verb (bytes "get")
      then run_get s cmd args
      else if equal verb (bytes "set")
      then run_set s args
      else if equal verb (bytes "delete")
      then run_delete s args
      else if equal verb (bytes "fields")
      then run_fields s
      else if equal verb (bytes "commit")
      then run_commit s
      else ok (s, bytes "ERROR: Unrecognized command: " ++ cmd)

  -- `parseRequest(len)`: what the provider is afterwards, and what is written to the client. The
  -- `response` that the request before left is cleared.
  unfoldable pub parse_request : S → Bytes → Bytes → Result (S × Bytes)
  unfolding request_parts
  parse_request s response request = do
    let cleared : Bytes = []
    (s', text) ← run_command s (drop_eol request) (request_parts request)
    ok (s', do_write (cleared ++ text))

  -- `do_read` and `do_write` in turn: what each read delivers, and what is written for it.
  unfoldable pub converse : S → Bytes → List Bytes → Result (S × List Bytes)
  converse s response [] = ok (s, [])
  converse s response (request ∷ requests) = do
    (s', text) ← parse_request s response request
    (s'', texts) ← converse s' text requests
    ok (s'', text ∷ texts)
