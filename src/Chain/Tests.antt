-- ===== src/Chain/Tests.antt =====
-- The chain over a network that hands every command to a session, at a small table.
use reminder_suite.Prelude.{
  if◌then◌else◌, ℕ, zero, suc, ◌≤◌, Bool, true, false, List, [], ◌∷◌, ◌++◌, none, some, length,
  take, drop, ◌≡◌, refl, ap, arith,
}
use reminder_suite.Text.{equal, before_first, Bytes, bytes, write_each}
use reminder_suite.Provider.Entry.{from_line, Entry, as_string}
use reminder_suite.Provider.TextFile.Lookup.{lookup}
use reminder_suite.Provider.Tests.{table-HasName, table, milk, gym, disk_of, table-IsStorable}
use reminder_suite.Http.Handler.{has_dotdot}
use reminder_suite.Chain.Store.{stored_text, set_served}
use reminder_suite.Prelude.Fault.{Result, ok, err, undefined}
use reminder_suite.Provider.TextFile.{DbTextFile, text_file, fields, get_all}
use reminder_suite.Provider.TextFile.Storage.{IsStorable}
use reminder_suite.Session.{parse_request}
use reminder_suite.Client.{Network, stream_size, execute_cmd}
use reminder_suite.Http.Rdb.{PropertyTree, parse_call}
use reminder_suite.Http.{Request}
use reminder_suite.Http.Parser.{consume, parse, is_char, is_ctl, is_tspecial, is_digit, update_back}
use reminder_suite.Http.Parser.Syntax.{IsWellFormed, blank, parse-IsWellFormed}
use reminder_suite.Http.Reply.{Reply, not_found}
use reminder_suite.Http.Url.{read_hex, url_decode}
use reminder_suite.Http.Connection
use reminder_suite.Http.Connection.{answering, feed}
use reminder_suite.Chain.Page.{json_reply, site}
use reminder_suite.Chain.{Server, Delivers}
use reminder_suite.Chain.Json.{json_get_wide}

-- A tree is the text of it.
abbrev texts : PropertyTree
texts = record {
  Tree = Bytes;
  empty = [];
  of_text = λ t. t;
  push_back = λ t child. t ++ (b'[' ∷ child ++ b']' ∷ []);
  put = λ t field value. t ++ field ++ (b'=' ∷ value ++ b';' ∷ []);
  add_child = λ t name child. t ++ name ++ child;
  write_json = λ t. t;
}

abbrev receive : Server → Result (Server × Bytes) → (Server × Bytes) × Bool
receive st (ok answer) = (answer, true)
receive st (err e) = ((st, []), false)

-- What waits to be read stands beside the server.
abbrev loopback : Network (Server × Bytes)
loopback = record {
  connect = λ s. (s, true);
  send = λ s cmd. receive s.0 (parse_request text_file s.0 [] cmd);
  read_some = λ s n. ((s.0, drop n s.1), some (take n s.1));
  close = λ s. (s.0, []);
}

take-all : (n : ℕ) (s : Bytes) → length s ≤ n → take n s ≡ s
take-all zero [] h = refl
take-all (suc n) [] h = refl
take-all zero (c ∷ cs) h = absurd (omega arith)
take-all (suc n) (c ∷ cs) h = ap (◌∷◌ c) (take-all n cs (omega arith))

loopback-Delivers : Delivers loopback (λ s. s.0)
loopback-Delivers s cmd text after hc ht e = record {
  opened = s;
  asked = (after, text);
  told = (after, drop stream_size text);
  connects = refl;
  sends = rw e refl;
  reads = ap (λ t. ((after, drop stream_size text), some t)) (take-all stream_size text ht);
  closes = refl;
}

abbrev start : Server × Bytes
start = ((table, disk_of []), [])

-- One value too many.
abbrev wide : Entry
wide = record { values = bytes "run" ∷ bytes "sport" ∷ bytes "8" ∷ [] }

abbrev wide_table : DbTextFile
wide_table = record table { entries = milk ∷ wide ∷ gym ∷ [] }

wide_table-IsStorable : IsStorable wide_table
wide_table-IsStorable = record {
  names = table-IsStorable.names;
  rows = (
    table-IsStorable.rows.0,
    (
      record { some_value = λ e. cc; no_colon = omega arith; no_newline = omega arith },
      table-IsStorable.rows.1,
    ),
  );
}

json_get_wide_example :
    parse_call texts
      (λ s cmd. execute_cmd loopback s cmd [])
      ((wide_table, disk_of []), [])
      (bytes "/rdb/get")
    ≡ err undefined
json_get_wide_example =
    json_get_wide texts loopback (λ s. s.0) loopback-Delivers ((wide_table, disk_of []), [])
      wide_table-IsStorable (unfold fields write_each in omega arith) (milk ∷ []) wide (gym ∷ [])
      (unfold get_all as_string write_each in omega arith) refl (omega arith, tt) (omega arith)

abbrev get_page : Request
get_page = record {
  method = bytes "GET";
  uri = bytes "/rdb/g%65t";
  http_version_major = 1;
  http_version_minor = 0;
  headers = (record { name = bytes "Host"; value = bytes "a" }) ∷ [];
}

abbrev page_pieces : List Bytes
page_pieces = bytes "GET /rdb/g%" ∷ bytes "65t HTTP/1.0\r\nHost: a\r\n\r\nrest" ∷ []

abbrev new_reply : Reply
new_reply = record { status = not_found; headers = []; content = [] }

abbrev set_run : Request
set_run = record {
  method = bytes "PUT";
  uri = bytes "/rdb/set/run:sport";
  http_version_major = 1;
  http_version_minor = 0;
  headers = [];
}

set_run-IsWellFormed : IsWellFormed set_run
unfolding parse consume is_char is_ctl is_tspecial is_digit update_back
set_run-IsWellFormed =
    parse-IsWellFormed 7 7 (bytes "PUT /rdb/set/run:sport HTTP/1.0\r\n\r\n") refl refl

set_served_example :
    (s' : Server × Bytes) × (feed
        (site texts loopback (λ s. s.0) loopback-Delivers (λ p. none) [])
        start
        (Connection.start (blank 7 7) new_reply)
        (bytes "PUT /rdb/set/run:sport HT" ∷ bytes "TP/1.0\r\n\r\n" ∷ [])
      ≡ ok (s', answering set_run (json_reply stored_text)))
    × (s'.0.1 ≡ start.0.1)
    × ((k : Bytes)
        → lookup k s'.0.0.entries ≡ (
            if equal (before_first b':' (bytes "run:sport")) k
            then some (from_line (bytes "run:sport"))
            else lookup k start.0.0.entries))
set_served_example =
    set_served texts loopback (λ s. s.0) loopback-Delivers (λ p. none) [] start set_run
      (bytes "run:sport") (bytes "1") (bytes "0") [] 7 7 new_reply
      (bytes "PUT /rdb/set/run:sport HT" ∷ bytes "TP/1.0\r\n\r\n" ∷ []) table-HasName
      (record { no_slash = omega arith; no_cr = omega arith; no_lf = omega arith })
      (unfold before_first in λ e. cc) (omega arith) (unfold has_dotdot in refl)
      set_run-IsWellFormed
      (record { some_digit = λ e. cc; digits = (unfold is_digit in refl, tt); fits = omega arith })
      (record { some_digit = λ e. cc; digits = (unfold is_digit in refl, tt); fits = omega arith })
      refl refl (unfold url_decode read_hex in refl) refl refl
