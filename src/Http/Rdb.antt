-- ===== src/Http/Rdb.antt =====
-- HttpWrapper/src/rdb_handler.cpp: requests under "/rdb/" that the HTTP server passes on to the data
-- server, and the JSON that it makes of the answers.
--
-- Boost's property trees and their JSON writer are a parameter. So is the call of `executeCmd`: it
-- takes what lies behind the connection to its next state, and fails or gives the lines answered.
use reminder_suite.Prelude.{
  Bool, false, ◌||◌, List, [], ◌∷◌, Option, none, some, take, drop, if◌then◌else◌,
}
use reminder_suite.Prelude.Fault.{Result, ok, err, undefined, ◌>>=◌}
use reminder_suite.Text.{Bytes, bytes, equal, tokens, starts_with, write_each}

pub record PropertyTree : Type 1 where
  pub Tree : Type 0
  pub empty : Tree
  pub of_text : Bytes → Tree
  pub push_back : Tree → Tree → Tree
  pub put : Tree → Bytes → Bytes → Tree
  pub add_child : Tree → Bytes → Tree → Tree
  pub write_json : Tree → Bytes

-- In the order of `std::set`.
abbrev pub commands : List Bytes
commands = bytes "commit" ∷ bytes "delete" ∷ bytes "fields" ∷ bytes "get" ∷ bytes "set" ∷ []

-- A request that is shorter than the prefix compares unequal.
unfoldable pub is_rdb_call : Bytes → Bool
unfolding starts_with
is_rdb_call request = starts_with (bytes "/rdb/") request

any_starts : List Bytes → Bytes → Bool
any_starts [] param = false
any_starts (cmd ∷ cmds) param = starts_with cmd param || any_starts cmds param

-- `std::equal` goes on over the whole command; at the end of the parameter it meets the terminator
-- of the string, which no command holds, and stops.
unfoldable pub is_valid_call : Bytes → Bool
unfolding any_starts starts_with
is_valid_call request = any_starts commands (drop 5 request)

abbrev pub is_get : Bytes → Bool
is_get param = equal (take 4 param) (bytes "/get")

module _ (pt : PropertyTree) where
  open pt use {Tree, empty, of_text, push_back, put, add_child, write_json}

  abbrev pub push_fields : Tree → List Bytes → Tree
  push_fields children [] = children
  push_fields children (f ∷ fs) = push_fields (push_back children (of_text f)) fs

  -- `*_fNameIt++` for each value of the row
  unfoldable pub put_row : Tree → List Bytes → List Bytes → Result Tree
  put_row node fs [] = ok node
  put_row node [] (v ∷ vs) = err undefined
  put_row node (f ∷ fs) (v ∷ vs) = put_row (put node f v) fs vs

  abbrev pub push_row : Tree → List Bytes → Bytes → Result Tree
  push_row children fs [] = ok children
  push_row children fs (c ∷ cs) = do
    node ← put_row empty fs (tokens b':' (c ∷ cs))
    ok (push_back children node)

  unfoldable pub push_rows : Tree → List Bytes → List Bytes → Result Tree
  unfolding put_row
  push_rows children fs [] = ok children
  push_rows children fs (row ∷ rows) = do
    children' ← push_row children fs row
    push_rows children' fs rows

  abbrev pub json_under : Bytes → Tree → Bytes
  json_under name children = write_json (add_child empty name children)

  module _ {S : Type 0} (execute_cmd : S → Bytes → S × Option (List Bytes)) where
    abbrev pub answer_rows : S → List Bytes → Bytes → List Bytes → Result (S × Option Bytes)
    answer_rows s fs param lines =
        if is_get param
        then (do
          children ← push_rows empty fs lines
          ok (s, some (json_under (bytes "reminders") children)))
        else ok (s, some (write_each (bytes "\r\n") lines))

    abbrev pub answer_lines :
        List Bytes → Bytes → S × Option (List Bytes) → Result (S × Option Bytes)
    answer_lines fs param (s, none) = ok (s, none)
    answer_lines fs param (s, some lines) = answer_rows s fs param lines

    abbrev pub with_fields : S → Bytes → List Bytes → Result (S × Option Bytes)
    with_fields s param fs =
        if equal param (bytes "/fields")
        then ok (s, some (json_under (bytes "fields") (push_fields empty fs)))
        else answer_lines fs param (execute_cmd s param)

    -- `_fieldsCsv.front()`
    abbrev pub first_line : List Bytes → Result Bytes
    first_line [] = err undefined
    first_line (l ∷ ls) = ok l

    abbrev pub after_fields : Bytes → S × Option (List Bytes) → Result (S × Option Bytes)
    after_fields param (s, none) = ok (s, none)
    after_fields param (s, some lines) = do
      csv ← first_line lines
      with_fields s param (tokens b':' csv)

    -- `parse` and `getResponse`: the response, or `none` for `return false`.
    unfoldable pub parse_call : S → Bytes → Result (S × Option Bytes)
    unfolding push_rows
    parse_call s request =
        let param = drop 4 request in
        if equal param (bytes "/fields") || is_get param
        then after_fields param (execute_cmd s (bytes "/fields"))
        else with_fields s param []
