-- ===== src/Http/Server/Tests.antt =====
-- A server that accepts two connections, reads a piece of a request, and is stopped.
use reminder_suite.Prelude.{
  some, get_elem?, arith, ℕ, ◌+◌, ◌*◌, ◌≤◌, ◌≡◌, ◌⊎◌, true, [], ◌∷◌, length, refl,
}
use reminder_suite.Http.Parser.{update_back, consume, is_char, is_ctl, is_tspecial, is_digit, parse}
use reminder_suite.Http.Parser.Tests.{get_fields, get_fields-IsWellFormed}
use reminder_suite.Http.Connection.{answering, failed, start, done, aborted}
use reminder_suite.Http.Reply.{not_found, stock_reply}
use reminder_suite.Http.Server.Isolation.{client_served}
use reminder_suite.Prelude.Fault.{ok, err}
use reminder_suite.Text.{bytes}
use reminder_suite.Http.Parser.Syntax.{blank}
use reminder_suite.Http.Connection.Tests.{count, memory}
use reminder_suite.Http.Server.{
  HttpServer, Completion, accepted, signalled, received, written, listening, left_by, release,
  on_completion, Runs,
}
use reminder_suite.Http.Server.Invariant.{IsSteady, Runs-IsSteady}
use reminder_suite.Http.Server.Shutdown.{Ready, shut_down}
use reminder_suite.Http.Server.Outstanding.{outstanding}

abbrev next : HttpServer ℕ → Completion → HttpServer ℕ
next server e = elim (on_completion count server e) [ ok server' ↦ server' | err f ↦ server ]

abbrev first : Completion
first = accepted (blank 1 1) memory true

abbrev second : Completion
second = accepted (blank 2 2) memory true

abbrev two_peers : HttpServer ℕ
two_peers = next (next (listening 0) first) second

abbrev request_read : Completion
request_read = received 1 (done (bytes "G / HTTP/1.0\r\n\r\n"))

-- What was read before the signal is still parsed, and the write meets a closed socket.
abbrev piece_read : Completion
piece_read = received 0 (done (bytes "GE"))

abbrev write_aborted : Completion
write_aborted = written 1 aborted

abbrev stopped : HttpServer ℕ
stopped = next (next two_peers request_read) signalled

abbrev later : HttpServer ℕ
later = next (next stopped piece_read) write_aborted

reached : Runs count (listening 0) (first ∷ second ∷ request_read ∷ signalled ∷ []) stopped
unfolding on_completion parse consume is_char is_ctl is_tspecial is_digit
reached = (
  refl,
  next (listening 0) first,
  refl,
  (
    refl,
    two_peers,
    refl,
    (
      (left_by (start (blank 2 2) memory), refl, refl, refl),
      next two_peers request_read,
      refl,
      (refl, stopped, refl, refl),
    ),
  ),
)

goes_on : Runs count stopped (piece_read ∷ write_aborted ∷ []) later
unfolding on_completion parse consume is_char is_ctl is_tspecial is_digit
goes_on = (
  (release (left_by (start (blank 1 1) memory)), refl, refl, refl),
  next stopped piece_read,
  refl,
  ((_, refl, refl, refl), later, refl, refl),
)

Runs-IsSteady_example : IsSteady stopped
Runs-IsSteady_example =
    Runs-IsSteady count 0 (first ∷ second ∷ request_read ∷ signalled ∷ []) stopped reached

-- The accept, and the read that the handler began on the closed socket.
two_left : outstanding later ≡ 2
unfolding on_completion parse consume is_char is_ctl is_tspecial is_digit
two_left = refl

shut_down_example :
    (2 + outstanding later ≤ 1 + 2 * length stopped.peers)
    × (length later.peers ≡ length stopped.peers)
    × ((outstanding later ≡ 0) ⊎ Ready count later)
unfolding on_completion
shut_down_example =
    shut_down count 0 (first ∷ second ∷ request_read ∷ signalled ∷ [])
      (piece_read ∷ write_aborted ∷ []) stopped later reached refl goes_on

abbrev piece_1 : Completion
piece_1 = received 0 (done (bytes "GET /rdb/fie"))

abbrev piece_2 : Completion
piece_2 = received 0 (done (bytes "lds HTTP/1.00\r\nHost: a b\r\n\r\nrest"))

abbrev other_fails : Completion
other_fails = received 1 failed

abbrev served_server : HttpServer ℕ
served_server = next (next (next two_peers piece_1) other_fails) piece_2

serves : Runs count two_peers (piece_1 ∷ other_fails ∷ piece_2 ∷ []) served_server
unfolding on_completion parse consume is_char is_ctl is_tspecial is_digit update_back
serves = (
  (left_by (start (blank 1 1) memory), refl, refl, refl),
  next two_peers piece_1,
  refl,
  (
    (left_by (start (blank 2 2) memory), refl, refl, tt),
    next (next two_peers piece_1) other_fails,
    refl,
    ((_, refl, refl, refl), served_server, refl, refl),
  ),
)

client_served_example :
    get_elem? served_server.peers 0 ≡ some (left_by (answering get_fields (stock_reply not_found)))
unfolding on_completion
client_served_example =
    client_served count (λ req rep. stock_reply not_found) (λ n req rep. (n + 1, refl)) two_peers
      served_server 0 (piece_1 ∷ other_fails ∷ piece_2 ∷ []) get_fields (bytes "1") (bytes "00")
      (bytes "rest") 1 1 memory serves refl (refl, tt) get_fields-IsWellFormed
      (record { some_digit = λ e. cc; digits = (unfold is_digit in refl, tt); fits = omega arith })
      (record {
        some_digit = λ e. cc;
        digits = (unfold is_digit in refl, (unfold is_digit in refl, tt));
        fits = omega arith;
      })
      refl refl refl
