-- ===== src/Http/Server.antt =====
-- HttpWrapper/src/server.cpp, with the set of connection_manager.cpp: the event loop of the server.
--
-- `peers` holds every connection that was started; those that are `managed` are the manager's set.
-- Which operation completes next, and how, is the environment's choice: `Occurs` says what Boost's
-- event loop may deliver.
pub mod Invariant
pub mod Outstanding
pub mod Shutdown
pub mod Peers
pub mod Isolation
mod Tests
use reminder_suite.Prelude.{
  ℕ, ◌≡◌, Bool, true, false, not, List, [], ◌∷◌, ◌++◌, map, Option, none, some, set, get_elem?,
}
use reminder_suite.Prelude.Fault.{Result, ok, ◌>>=◌}
use reminder_suite.Text.{Bytes}
use reminder_suite.Http.{Request}
use reminder_suite.Http.Reply.{Reply}
use reminder_suite.Http.Connection.{
  reading, writing, Connection, start, stop_all, Outcome, done, failed, aborted, on_read, on_write,
}

-- A connection, and whether its socket was closed already when the operation under way began.
pub record Peer : Type 0 where
  pub connection : Connection
  pub late : Bool

pub record HttpServer (S : Type 0) : Type 0 where
  pub handled : S
  -- `acceptor_.is_open()`
  pub is_open : Bool
  -- Whether an accept, and the wait for a signal, is under way.
  pub accepting : Bool
  pub awaiting : Bool
  pub peers : List Peer

-- A new object finds its version numbers and its status as memory was.
pub data Completion : Type 0 where
  accepted : Request → Reply → Bool → Completion
  signalled : Completion
  received : ℕ → Outcome Bytes → Completion
  written : ℕ → Outcome (Unit {0}) → Completion

-- What a handler leaves: an operation that it began, if any, was begun on the socket as it then was.
abbrev pub left_by : Connection → Peer
left_by c = record { connection = c; late = not c.managed }

-- `connection_manager::stop_all`, which goes through the set and clears it.
abbrev pub release : Peer → Peer
release p = record p { connection = stop_all p.connection }

module _ {S : Type 0} where
  -- The constructor: the wait for a signal and the first accept are begun.
  abbrev pub listening : S → HttpServer S
  listening s = record {
    handled = s;
    is_open = true;
    accepting = true;
    awaiting = true;
    peers = [];
  }

  -- The handler of `do_accept`: whether the acceptor is open, and whether there was no error.
  abbrev pub on_accepted : HttpServer S → Bool → Bool → Request → Reply → HttpServer S
  on_accepted server false fine request reply = record server { accepting = false }
  on_accepted server true false request reply = server
  on_accepted server true true request reply = record server {
    peers = server.peers ++ left_by (start request reply) ∷ [];
  }

  -- The handler of `do_await_stop`.
  abbrev pub on_signalled : HttpServer S → HttpServer S
  on_signalled server = record server {
    is_open = false;
    awaiting = false;
    peers = map release server.peers;
  }

  abbrev pub on_written : HttpServer S → ℕ → Outcome (Unit {0}) → Option Peer → HttpServer S
  on_written server i outcome none = server
  on_written server i outcome (some p) = record server {
    peers = set server.peers i (left_by (on_write p.connection outcome));
  }

  module _ (handle : S → Request → Reply → Result (S × Reply)) where
    abbrev pub on_received : HttpServer S → ℕ → Outcome Bytes → Option Peer → Result (HttpServer S)
    on_received server i outcome none = ok server
    on_received server i outcome (some p) = do
      (s, c) ← on_read handle server.handled p.connection outcome
      ok (record server { handled = s; peers = set server.peers i (left_by c) })

    -- One completion handler, run by `io_service::run`.
    unfoldable pub on_completion : HttpServer S → Completion → Result (HttpServer S)
    unfolding on_read on_write
    on_completion server (accepted request reply fine) =
        ok (on_accepted server server.is_open fine request reply)
    on_completion server signalled = ok (on_signalled server)
    on_completion server (received i outcome) =
        on_received server i outcome (get_elem? server.peers i)
    on_completion server (written i outcome) =
        ok (on_written server i outcome (get_elem? server.peers i))

-- How an operation may end: it is aborted only where the socket was closed under it, and does not
-- succeed where the socket was closed before it.
abbrev pub MayEnd {ℓ} : {A : Type ℓ} → Peer → Outcome A → Type 0
MayEnd p (done a) = p.late ≡ false
MayEnd p failed = Unit
MayEnd p aborted = p.connection.managed ≡ false

module _ {S : Type 0} where
  abbrev pub Occurs : HttpServer S → Completion → Type 0
  Occurs server (accepted request reply fine) = server.accepting ≡ true
  Occurs server signalled = server.awaiting ≡ true
  Occurs server (received i outcome) =
      (p : Peer) × (get_elem? server.peers i ≡ some p)
      × (p.connection.phase ≡ reading)
      × MayEnd p outcome
  Occurs server (written i outcome) =
      (p : Peer) × (get_elem? server.peers i ≡ some p)
      × (p.connection.phase ≡ writing)
      × MayEnd p outcome

  -- `run`: the handlers of these completions run one after the other, and none meets a fault.
  abbrev pub Runs :
      (S → Request → Reply → Result (S × Reply))
      → HttpServer S
      → List Completion
      → HttpServer S
      → Type 0
  Runs handle server [] server' = server ≡ server'
  Runs handle server (e ∷ es) server' =
      Occurs server e
      × (next : HttpServer S) × (on_completion handle server e ≡ ok next)
      × Runs handle next es server'
