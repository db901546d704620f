-- ===== src/Http/Connection/Tests.antt =====
-- A connection that is served one small request in two pieces.
use reminder_suite.Prelude.{ℕ, ◌+◌, true, List, [], ◌∷◌, ◌≡◌, refl, arith}
use reminder_suite.Prelude.Fault.{Result, ok}
use reminder_suite.Text.{Bytes, bytes}
use reminder_suite.Http.{Request}
use reminder_suite.Http.Parser.{expecting_newline_3, is_digit}
use reminder_suite.Http.Parser.Syntax.{blank}
use reminder_suite.Http.Parser.Tests.{get_fields, get_fields-IsWellFormed}
use reminder_suite.Http.Reply.{Reply, not_found, stock_reply}
use reminder_suite.Http.Connection.{writing, start, done, on_read, feed}
use reminder_suite.Http.Connection.Serving.{joined, feed-joined, served}

-- Counts the calls.
abbrev pub count : ℕ → Request → Reply → Result (ℕ × Reply)
count n req reply = ok (n + 1, stock_reply not_found)

abbrev pub memory : Reply
memory = record { status = not_found; headers = []; content = [] }

abbrev pieces : List Bytes
pieces = bytes "GET /rdb/fie" ∷ bytes "lds HTTP/1.00\r\nHost: a b\r\n\r\nrest" ∷ bytes "more" ∷ []

feed-joined_example :
    feed count 0 (start (blank 7 7) memory) pieces
    ≡ on_read count 0 (start (blank 7 7) memory) (done (joined pieces))
feed-joined_example = feed-joined count 0 (start (blank 7 7) memory) pieces

served_example :
    feed count 0 (start (blank 7 7) memory) pieces
    ≡ ok (
      1,
      record {
        request = get_fields;
        parser_state = expecting_newline_3;
        reply = stock_reply not_found;
        phase = writing;
        managed = true;
      },
    )
served_example =
    served count 0 get_fields (bytes "1") (bytes "00") (bytes "restmore") 7 7 memory pieces
      get_fields-IsWellFormed
      (record { some_digit = λ e. cc; digits = (unfold is_digit in refl, tt); fits = omega arith })
      (record {
        some_digit = λ e. cc;
        digits = (unfold is_digit in refl, (unfold is_digit in refl, tt));
        fits = omega arith;
      })
      refl refl refl
