-- ===== src/Chain/Store.antt =====
-- HttpWrapper/src/connection.cpp, request_handler.cpp and rdb_handler.cpp over the data server: what
-- comes of a row that a client of the HTTP server stores.
use reminder_suite.Prelude.{
  ℕ, ◌≤◌, false, List, [], ◌∷◌, ◌++◌, append-nil, All, Option, some, length, ◌≡◌, ◌≢◌, ◌∙◌, refl,
  sym, ap, if◌then◌else◌, arith,
}
use reminder_suite.Prelude.Fault.{Result, ok}
use reminder_suite.Text.{Bytes, bytes, equal, tokens, before_first, write_each}
use reminder_suite.Text.Tokens.{tokens-append_last}
use reminder_suite.Provider.Entry.{from_line}
use reminder_suite.Provider.TextFile.{DbTextFile, text_file}
use reminder_suite.Provider.TextFile.Lookup.{HasName, lookup}
use reminder_suite.Provider.TextFile.Update.{lookup-set_entry}
use reminder_suite.Session.{do_write, parse_request}
use reminder_suite.Session.Requests.{IsWord}
use reminder_suite.Session.Replies.{key-from_line, set_request, before_first-ne-nil}
use reminder_suite.Client.{Network, stream_size, execute_cmd}
use reminder_suite.Http.{Request}
use reminder_suite.Http.Parser.Syntax.{IsWellFormed, blank}
use reminder_suite.Http.Parser.Numbers.{IsVersion, number}
use reminder_suite.Http.Parser.RoundTrip.{print_request}
use reminder_suite.Http.Url.{url_decode}
use reminder_suite.Http.Rdb.{PropertyTree, is_rdb_call, is_valid_call, parse_call}
use reminder_suite.Http.Reply.{Reply}
use reminder_suite.Http.Handler.{has_dotdot, serve_rdb, handle_request}
use reminder_suite.Http.Connection.{answering, start, feed}
use reminder_suite.Http.Connection.Serving.{joined, served}
use reminder_suite.Chain.{Server, Delivers, execute_cmd-Exchange}
use reminder_suite.Chain.Page.{json_reply, site}

-- What stands in the reply to a "set" of a line that was stored.
abbrev pub stored_text : Bytes
stored_text = bytes "Filed to set Entry: \r\n"

stored_line :
    tokens b'\n' (do_write (bytes "Filed to set Entry: ")) ≡ bytes "Filed to set Entry: " ∷ []
stored_line = tokens-append_last b'\n' (bytes "Filed to set Entry: ") (omega arith)

module _ {S : Type 0} (open_file : Bytes → Option Bytes)
    (call : S → Bytes → Result (S × Option Bytes)) (doc_root : Bytes) where
  handle_set :
      (s s' : S) (req : Request) (rep : Reply) (csv text : Bytes)
      → url_decode req.uri ≡ some (bytes "/rdb/set/" ++ csv)
      → has_dotdot (bytes "/rdb/set/" ++ csv) ≡ false
      → rep.content ≡ []
      → call s (bytes "/rdb/set/" ++ csv) ≡ ok (s', some text)
      → handle_request open_file call doc_root s req rep ≡ ok (s', json_reply text)
  unfolding handle_request serve_rdb is_rdb_call is_valid_call equal
  handle_set s s' req rep csv text u d new c = rw (u, d, c, new) refl

call_set :
    (pt : PropertyTree) {S : Type 0} (execute : S → Bytes → S × Option (List Bytes)) (s s' : S)
    (csv : Bytes)
    → execute s (bytes "/set/" ++ csv) ≡ (s', some (bytes "Filed to set Entry: " ∷ []))
    → parse_call pt execute s (bytes "/rdb/set/" ++ csv) ≡ ok (s', some stored_text)
unfolding parse_call equal write_each
call_set pt execute s s' csv e = rw e refl

module _ (pt : PropertyTree) {S : Type 0} (net : Network S) (behind : S → Server)
    (delivers : Delivers net behind) (open_file : Bytes → Option Bytes) (doc_root : Bytes) where
  told :
      (s : S) (csv : Bytes) (db : DbTextFile)
      → length (bytes "/set/" ++ csv) ≤ stream_size
      → parse_request text_file (behind s) [] (bytes "/set/" ++ csv)
        ≡ ok ((db, (behind s).1), do_write (bytes "Filed to set Entry: "))
      → (s' : S) × (execute_cmd net s (bytes "/set/" ++ csv) []
          ≡ (s', some (bytes "Filed to set Entry: " ∷ [])))
        × (behind s' ≡ (db, (behind s).1))
  told s csv db short e =
      let (s', x, b) =
        execute_cmd-Exchange net behind s
          (delivers s (bytes "/set/" ++ csv) _ _ short (omega arith) e) in
      (s', x ∙ ap (λ ls. (s', some ls)) stored_line, b)

  -- In the table of the data server every entry has a name. A client of the HTTP server sends a
  -- well-formed request whose URI decodes to "/rdb/set/" and a line with no slash, no line end and
  -- no "..", that fits one read and begins with a name; with version numbers clear of the largest
  -- `int`, in whatever pieces and with whatever behind it. Then its connection goes on to write, as
  -- JSON, the failure text of the data server; though the name now finds the entry of the line, and
  -- every other what it found before. Nothing is written to the disk.
  pub set_served :
      (s : S) (req : Request) (csv major minor rest : Bytes) (a b : ℕ) (reply : Reply)
      (chunks : List Bytes)
      → All HasName (behind s).0.entries
      → IsWord csv
      → before_first b':' csv ≢ []
      → length (bytes "/set/" ++ csv) ≤ stream_size
      → has_dotdot (bytes "/rdb/set/" ++ csv) ≡ false
      → IsWellFormed req
      → IsVersion major
      → IsVersion minor
      → number 0 major ≡ req.http_version_major
      → number 0 minor ≡ req.http_version_minor
      → url_decode req.uri ≡ some (bytes "/rdb/set/" ++ csv)
      → joined chunks ≡ print_request req major minor rest
      → reply.content ≡ []
      → (s' : S) × (feed
            (site pt net behind delivers open_file doc_root)
            s
            (start (blank a b) reply)
            chunks
          ≡ ok (s', answering req (json_reply stored_text)))
        × ((behind s').1 ≡ (behind s).1)
        × ((k : Bytes)
            → lookup k (behind s').0.entries ≡ (
                if equal (before_first b':' csv) k
                then some (from_line csv)
                else lookup k (behind s).0.entries))
  set_served s req csv major minor rest a b reply chunks named word some_name short d w va vb ea eb
        uri sent new =
      let (db, e, found) =
        lookup-set_entry (behind s).0 (before_first b':' csv) csv named (key-from_line csv) in
      let asked = set_request (behind s) [] word (before_first-ne-nil refl some_name) db e in
      let (s', x, after) = told s csv db short (
        ap (λ t. parse_request text_file (behind s) [] (bytes "/set/" ++ t)) (sym (append-nil csv))
        ∙ asked) in
      (
        s',
        served (site pt net behind delivers open_file doc_root) s req major minor rest a b reply
              chunks w va vb ea eb sent
            ∙ rw
                (handle_set open_file _ doc_root s s' req reply csv stored_text uri d new
                  (call_set pt (λ s cmd. execute_cmd net s cmd []) s s' csv x))
                refl,
        rw after refl,
        λ k. rw after (found k),
      )
