-- ===== src/Http/Connection.antt =====
-- HttpWrapper/src/connection.cpp and what connection_manager.cpp does to one connection.
--
-- The completion handlers of `do_read` and `do_write` are functions of what the operation came to.
-- `managed` tells whether the manager's set holds the connection; `Phase` which operation is under
-- way. The handler of requests is a parameter, with what it keeps.
pub mod Serving
pub mod Lifetime
pub mod Tests
use reminder_suite.Prelude.{ℕ, Bool, true, false, List, [], ◌∷◌, ◌++◌}
use reminder_suite.Prelude.Fault.{Result, ok, ◌>>=◌}
use reminder_suite.Text.{Bytes}
use reminder_suite.Http.{Request}
use reminder_suite.Http.Parser.{
  State, expecting_newline_3, ResultType, good, bad, indeterminate, Parsed, parse, method_start,
}
use reminder_suite.Http.Reply.{Reply, bad_request, stock_reply}

pub data Phase : Type 0 where
  reading writing idle : Phase

pub record Connection : Type 0 where
  pub request : Request
  pub parser_state : State
  pub reply : Reply
  pub phase : Phase
  pub managed : Bool

-- `connection_manager::start` of a new connection; the numbers and the status are as memory was.
abbrev pub start : Request → Reply → Connection
start request reply = record {
  request = request;
  parser_state = method_start;
  reply = reply;
  phase = reading;
  managed = true;
}

-- `connection_manager::stop`; no operation follows.
abbrev pub stop : Connection → Connection
stop c = record c { phase = idle; managed = false }

-- `connection_manager::stop_all`; the operation under way is still to be told.
abbrev pub stop_all : Connection → Connection
stop_all c = record c { managed = false }

-- A connection that goes on to write its reply to this request.
abbrev pub answering : Request → Reply → Connection
answering req reply = record {
  request = req;
  parser_state = expecting_newline_3;
  reply = reply;
  phase = writing;
  managed = true;
}

-- What an operation came to: an error may be that it was aborted.
pub data Outcome {ℓ} (A : Type ℓ) : Type ℓ where
  done : A → Outcome A
  failed aborted : Outcome A

-- The handler of `do_write`. A failed shutdown is ignored.
unfoldable pub on_write : Connection → Outcome (Unit {0}) → Connection
on_write c (done u) = stop c
on_write c failed = stop c
on_write c aborted = record c { phase = idle }

module _ {S : Type 0} (handle : S → Request → Reply → Result (S × Reply)) where
  abbrev pub replied : Connection → S × Reply → S × Connection
  replied c (s, reply) = (s, record c { reply = reply; phase = writing })

  abbrev pub on_result : S → Connection → ResultType → Result (S × Connection)
  on_result s c good = do r ← handle s c.request c.reply; ok (replied c r)
  on_result s c bad = ok (replied c (s, stock_reply bad_request))
  on_result s c indeterminate = ok (s, record c { phase = reading })

  abbrev pub on_parsed : S → Connection → Parsed → Result (S × Connection)
  on_parsed s c p = on_result s (record c { request = p.req; parser_state = p.state }) p.result

  -- The handler of `do_read`.
  unfoldable pub on_read : S → Connection → Outcome Bytes → Result (S × Connection)
  on_read s c (done chunk) = do p ← parse c.parser_state c.request chunk; on_parsed s c p
  on_read s c failed = ok (s, stop c)
  on_read s c aborted = ok (s, record c { phase = idle })

  -- Reads that deliver these chunks, as long as the connection reads.
  unfoldable pub feed : S → Connection → List Bytes → Result (S × Connection)
  unfolding on_read
  feed s c [] = ok (s, c)
  feed s c (chunk ∷ chunks) = do
    r ← on_read s c (done chunk)
    elim r.1.phase [ reading ↦ feed r.0 r.1 chunks | writing ↦ ok r | idle ↦ ok r ]
