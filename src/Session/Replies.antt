-- ===== src/Session/Replies.antt =====
-- Server/src/session.cpp: what a client of the data server is told, request after request.
use mathlib.Core.Path.{subst}
use reminder_suite.Prelude.{
  ◌∙◌, sym, Bool, true, List, [], ◌∷◌, ◌++◌, All, none, some, ◌≡◌, ◌≢◌, refl, arith,
}
use reminder_suite.Prelude.Fault.{Result, ok}
use reminder_suite.Text.{Bytes, bytes, equal, equal_refl, before_first, c_str, write_each}
use reminder_suite.Text.Tokens.{tokens-before_first, write_each-cons}
use reminder_suite.Provider.Entry.{Entry, from_line, from_line-IsRow, as_string}
use reminder_suite.Provider.TextFile.{
  DbTextFile, text_file, create, read, save, get, set_entry, erase,
}
use reminder_suite.Provider.TextFile.Lookup.{key, HasName, lookup, get-lookup}
use reminder_suite.Provider.TextFile.Update.{lookup-set_entry}
use reminder_suite.Provider.TextFile.Keys.{IsDistinct, erase-IsDistinct}
use reminder_suite.Provider.TextFile.Invariant.{set_entry-All, erase-All}
use reminder_suite.Provider.TextFile.Storage.{IsStorable, read-save}
use reminder_suite.Session.{
  do_write, request_parts, run_command, parse_request, found_or_error, set_entry_reply,
  delete_reply, drop_eol,
}
use reminder_suite.Session.Requests.{path, IsWord, request_parts-path, drop_eol-path}
use reminder_suite.Session.Outcome.{State}

-- The name of an entry is what its line holds before the first colon.
pub key-from_line : (csv : Bytes) → key (from_line csv) ≡ before_first b':' csv
unfolding from_line
key-from_line csv = let (ts, e) = tokens-before_first b':' csv in rw e

-- Over a table that the format can hold, a "commit" where the process may write the file is answered
-- with the failure text, though the table was written: a new provider on the path reads it back.
pub commit_persists :
    (s : State) (response request : Bytes) (rest : List Bytes)
    → IsStorable s.0
    → s.1.permits (c_str s.0.db_path) ≡ true
    → request_parts request ≡ bytes "commit" ∷ rest
    → (s' : State) × (parse_request text_file s response request
        ≡ ok (s', do_write (bytes "Failed to preserve DB: ")))
      × (read (create s.0.db_path) s'.1 ≡ ok (s.0, true))
unfolding parse_request run_command save equal
commit_persists s response request rest h p e =
    rw e ((s.0, (save s.0 s.1).0), rw p, read-save s.0 s.1 h p)

module _ {w : Bytes} (h : IsWord w) (ne : w ≢ []) where
  -- A command with one argument.
  parts_of :
      (command : Bytes)
      → IsWord command
      → request_parts (path (command ∷ w ∷ [])) ≡ command ∷ w ∷ []
  parts_of command c = request_parts-path command (w ∷ []) (c, (h, tt)) ne

  drop_eol-get : drop_eol (path (bytes "get" ∷ w ∷ [])) ≡ path (bytes "get" ∷ w ∷ [])
  drop_eol-get = drop_eol-path (bytes "get" ∷ w ∷ []) (omega arith, (h, tt))

as_string-found :
    (cmd : Bytes) (e : Entry) → HasName e → found_or_error cmd (as_string e) ≡ as_string e
unfolding as_string
as_string-found cmd e h = values-found e.values h
  where
    values-found :
        (vs : List Bytes)
        → vs ≢ []
        → found_or_error cmd (write_each (b':' ∷ []) vs) ≡ write_each (b':' ∷ []) vs
    values-found [] h = absurd (h refl)
    values-found (v ∷ vs) h = let (r, rs, e) = write_each-cons b':' v vs in rw e

module _ (s : State) (response : Bytes) {w : Bytes} (h : IsWord w) (ne : w ≢ []) where
  pub set_request :
      (db : DbTextFile)
      → set_entry s.0 (before_first b':' w) w ≡ ok (db, true)
      → parse_request text_file s response (path (bytes "set" ∷ w ∷ []))
        ≡ ok ((db, s.1), do_write (set_entry_reply true))
  unfolding parse_request run_command equal
  set_request db e = rw (parts_of h ne (bytes "set") (omega arith), e)

  delete_request :
      (db : DbTextFile) (done : Bool)
      → erase s.0 w ≡ ok (db, done)
      → parse_request text_file s response (path (bytes "delete" ∷ w ∷ []))
        ≡ ok ((db, s.1), do_write (delete_reply w done))
  unfolding parse_request run_command equal
  delete_request db done e = rw (parts_of h ne (bytes "delete") (omega arith), e)

  get_request :
      (r : Bytes)
      → get s.0 w [] ≡ ok r
      → parse_request text_file s response (path (bytes "get" ∷ w ∷ []))
        ≡ ok (s, do_write (found_or_error (path (bytes "get" ∷ w ∷ [])) r))
  unfolding parse_request run_command equal
  get_request r e = rw (parts_of h ne (bytes "get") (omega arith), drop_eol-get h ne, e)

pub before_first-ne-nil : {csv name : Bytes} → before_first b':' csv ≡ name → name ≢ [] → csv ≢ []
unfolding before_first
before_first-ne-nil h n e = n (sym (rw e at h))

get_found :
    (db : DbTextFile) (name : Bytes) (e : Entry)
    → All HasName db.entries
    → lookup name db.entries ≡ some e
    → get db name [] ≡ ok (as_string e)
unfolding equal
get_found db name e h l = rw (get-lookup db name [] h, l)

get_missing :
    (db : DbTextFile) (name : Bytes)
    → All HasName db.entries
    → lookup name db.entries ≡ none
    → get db name [] ≡ ok []
get_missing db name h l = rw (get-lookup db name [] h, l)

-- Two names for what one call returned.
same_result :
    {r : Result (DbTextFile × Bool)} {db db' : DbTextFile} {b b' : Bool}
    → r ≡ ok (db, b)
    → r ≡ ok (db', b')
    → All HasName db'.entries
    → All HasName db.entries
same_result {r} {db} {db'} {b} {b'} e e' h =
    let p : db' ≡ db = cc in subst (λ x. All HasName x.entries) p h

-- Where every entry has a name, and the line and its name, the text before the first colon, hold no
-- slash and no line end and the name is not empty: a "set" of the line is answered with the failure
-- text, though the entry was stored, for a "get" of the name right after, on whatever response the
-- session holds, is answered with the values of the line.
pub set_then_get :
    (s : State) (response response' csv name : Bytes)
    → All HasName s.0.entries
    → IsWord csv
    → IsWord name
    → name ≢ []
    → before_first b':' csv ≡ name
    → (s' : State) × (parse_request text_file s response (path (bytes "set" ∷ csv ∷ []))
        ≡ ok (s', do_write (bytes "Filed to set Entry: ")))
      × (parse_request text_file s' response' (path (bytes "get" ∷ name ∷ []))
          ≡ ok (s', do_write (as_string (from_line csv))))
set_then_get s response response' csv name h wc w wn first =
    let (db, e, found) = lookup-set_entry s.0 name csv h (key-from_line csv ∙ first) in
    let (db', e', named, same) =
      set_entry-All HasName s.0 h h name csv (from_line-IsRow csv wc.no_lf).some_value in
    let now = same_result e e' named in
    let row = (from_line-IsRow csv wc.no_lf).some_value in
    (
      (db, s.1),
      set_request s response wc (before_first-ne-nil first wn) db (rw first e),
      rw (← as_string-found (path (bytes "get" ∷ name ∷ [])) (from_line csv) row) (
          get_request (db, s.1) response' w wn _
            (get_found db name (from_line csv) now (found name ∙ rw equal_refl))),
    )

-- Where every entry has a name and the names are distinct: a "delete" of a name that is there, and
-- is not empty and holds no slash and no line end, is answered with success, and a "get" of it right
-- after with the text for what is not found.
pub delete_then_get :
    (s : State) (response response' name : Bytes) (e : Entry)
    → All HasName s.0.entries
    → IsDistinct s.0.entries
    → lookup name s.0.entries ≡ some e
    → IsWord name
    → name ≢ []
    → (s' : State) × (parse_request text_file s response (path (bytes "delete" ∷ name ∷ []))
        ≡ ok (s', do_write (bytes "SUCCESS\n")))
      × (parse_request text_file s' response' (path (bytes "get" ∷ name ∷ []))
          ≡ ok (s', do_write (bytes "ERROR: Not found: " ++ path (bytes "get" ∷ name ∷ []))))
unfolding c_str
delete_then_get s response response' name e h d l w ne =
    let (db, q, rest, gone) = erase-IsDistinct s.0 name h d in
    let (db', done, q', named, same) = erase-All HasName s.0 h h name in
    let now = same_result q q' named in
    (
      (db, s.1),
      delete_request s response w ne db true (rw l at q),
      get_request (db, s.1) response' w ne [] (get_missing db name now gone),
    )
