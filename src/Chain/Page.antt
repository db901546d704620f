-- ===== src/Chain/Page.antt =====
-- HttpWrapper/src/connection.cpp, request_parser.cpp, request_handler.cpp and rdb_handler.cpp over the
-- data server: what a client of the HTTP server that asks for the table is sent.
use reminder_suite.Prelude.{[], ◌∷◌, Option, length}
use reminder_suite.Prelude.Fault.{Result, ok}
use reminder_suite.Text.{Bytes, bytes}
use reminder_suite.Client.{Network, execute_cmd}
use reminder_suite.Http.{Request}
use reminder_suite.Http.Rdb.{PropertyTree, parse_call}
use reminder_suite.Http.Reply.{StatusType, Reply, content_length, content_type}
use reminder_suite.Http.Handler.{handle_request}
use reminder_suite.Chain.{Server, Delivers}

-- The reply that carries a JSON text.
abbrev pub json_reply : Bytes → Reply
json_reply text = record {
  status = StatusType.ok;
  content = text;
  headers =
      content_length (length text)
      ∷ content_type (bytes "application/json")
      ∷ (record { name = bytes "Access-Control-Allow-Origin"; value = bytes "*" })
      ∷ [];
}

module _ (pt : PropertyTree) {S : Type 0} (net : Network S) (behind : S → Server)
    (delivers : Delivers net behind) (open_file : Bytes → Option Bytes) (doc_root : Bytes) where
  open pt use {empty}

  -- The HTTP server's handler of requests, over the client library.
  abbrev pub site : S → Request → Reply → Result (S × Reply)
  site = handle_request open_file (parse_call pt (λ s cmd. execute_cmd net s cmd [])) doc_root
