-- ===== src/Session/Tests.antt =====
-- Requests to the data server over a small table, and the theorems about it there.
use reminder_suite.Provider.Sqlite
use reminder_suite.Prelude.{List, true, [], ◌∷◌, All, ◌⊎◌, ◌≡◌, refl, arith}
use reminder_suite.Prelude.Fault.{ok, err, out_of_range}
use reminder_suite.Text.{Bytes, bytes, equal, tokens, before_first}
use reminder_suite.Provider.Entry.{from_line, as_string}
use reminder_suite.Provider.TextFile.{find_field, text_file, create, read}
use reminder_suite.Provider.TextFile.Lookup.{HasName}
use reminder_suite.Provider.TextFile.Storage.{IsStorable}
use reminder_suite.Provider.TextFile.Invariant.{SameTable}
use reminder_suite.Provider.Tests.{
  table, milk, disk_of, table-HasName, table-IsWide, table-IsDistinct, table-IsStorable,
}
use reminder_suite.Session.{converse, do_write, request_parts, parse_request}
use reminder_suite.Session.Outcome.{State}
use reminder_suite.Session.Safety.{parse_request_outcome, parse_request-IsStorable}
use reminder_suite.Session.Refinement.{catalogue, IsRegular}
use reminder_suite.Session.Conversation.{IsPlain, Follows, converse-Follows}
use reminder_suite.Session.Replies.{commit_persists, set_then_get, delete_then_get}

abbrev start : State
start = (table, disk_of [])

parse_request_outcome_example :
    ((request_parts (bytes "/delete\n") ≡ bytes "delete" ∷ [])
      × (parse_request text_file start [] (bytes "/delete\n") ≡ err out_of_range))
    ⊎ ((s : State) × (text : Bytes) × (parse_request text_file start [] (bytes "/delete\n")
          ≡ ok (s, do_write text))
        × All HasName s.0.entries
        × SameTable table s.0)
parse_request_outcome_example =
    parse_request_outcome start [] (bytes "/delete\n") table-HasName table-IsWide

parse_request-IsStorable_example :
    (s : State) × (text : Bytes) × (parse_request text_file start [] (bytes "/set/gym/type/club")
      ≡ ok (s, do_write text))
    × IsStorable s.0
parse_request-IsStorable_example =
    parse_request-IsStorable start [] (bytes "/set/gym/type/club") table-IsStorable table-IsWide
      (unfold request_parts tokens equal in omega arith)
      (unfold request_parts tokens equal in λ e. cc)

commit_persists_example :
    (s : State) × (parse_request text_file start [] (bytes "/commit")
      ≡ ok (s, do_write (bytes "Failed to preserve DB: ")))
    × (read (create (bytes "/rdb")) s.1 ≡ ok (table, true))
commit_persists_example =
    commit_persists start [] (bytes "/commit") [] table-IsStorable refl
      (unfold request_parts tokens equal in refl)

set_then_get_example :
    (s : State) × (parse_request text_file start [] (bytes "/set/run:sport")
      ≡ ok (s, do_write (bytes "Filed to set Entry: ")))
    × (parse_request text_file s (bytes "old") (bytes "/get/run")
        ≡ ok (s, do_write (as_string (from_line (bytes "run:sport")))))
set_then_get_example =
    set_then_get start [] (bytes "old") (bytes "run:sport") (bytes "run") table-HasName
      (omega arith) (omega arith) (λ e. cc) (unfold before_first in refl)

delete_then_get_example :
    (s : State) × (parse_request text_file start [] (bytes "/delete/milk")
      ≡ ok (s, do_write (bytes "SUCCESS\n")))
    × (parse_request text_file s (bytes "old") (bytes "/get/milk")
        ≡ ok (s, do_write (bytes "ERROR: Not found: /get/milk")))
delete_then_get_example =
    delete_then_get start [] (bytes "old") (bytes "milk") milk table-HasName table-IsDistinct
      (unfold equal in refl) (omega arith) (λ e. cc)

table-IsRegular : IsRegular table
table-IsRegular = record {
  full = ((table-HasName.0, table-IsWide.0), ((table-HasName.1.0, table-IsWide.1.0), tt));
  distinct = table-IsDistinct;
}

abbrev conversation : List Bytes
conversation =
    bytes "/set/run:sport\r\n"
    ∷ bytes "/set/run/type/club"
    ∷ bytes "/delete/milk"
    ∷ bytes "/get"
    ∷ []

conversation-IsPlain : All (IsPlain table.field_names) conversation
unfolding request_parts tokens equal from_line find_field
conversation-IsPlain = (
  record { named = λ e. cc; fits = λ e. omega arith },
  (
    record { named = λ e. cc; fits = λ e. λ f. cc },
    (record { named = λ e. cc; fits = λ e. cc }, (record { named = λ e. cc; fits = λ e. cc }, tt)),
  ),
)

converse-Follows_example :
    (s : State) × (texts : List Bytes) × (converse text_file start [] conversation ≡ ok (s, texts))
    × IsRegular s.0
    × Follows (catalogue table) conversation texts (catalogue s.0)
converse-Follows_example =
    converse-Follows start [] conversation table-IsRegular conversation-IsPlain
