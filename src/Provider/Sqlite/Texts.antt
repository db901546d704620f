-- ===== src/Provider/Sqlite/Texts.antt =====
-- DataProvider/DBSQLite/src/DBSQLite.cpp: the rows that the callbacks are given, as lines and lists,
-- and the statements that are built. A cell of a row is `none` where the callback gets a null pointer.
use reminder_suite.Prelude.{
  List, [], ◌∷◌, ◌++◌, Option, none, some, length, take, ◌-◌, if◌then◌else◌,
}
use reminder_suite.Prelude.Fault.{Result, ok, err, undefined, ◌>>=◌}
use reminder_suite.Text.{Bytes, bytes, equal}

abbrev pub Row : Type 0
Row = List (Option Bytes)

-- `append(rowData[colNr])` of a null pointer is undefined.
unfoldable pub append_cells : Bytes → Row → Result Bytes
append_cells text [] = ok text
append_cells text (none ∷ cells) = err undefined
append_cells text (some cell ∷ cells) = append_cells (text ++ cell ++ b':' ∷ []) cells

unfoldable pub append_rows : Bytes → List Row → Result Bytes
unfolding append_cells
append_rows text [] = ok text
append_rows text (row ∷ rows) = do text' ← append_cells text row; append_rows text' rows

unfoldable pub row_lines : List Row → Result (List Bytes)
unfolding append_cells
row_lines [] = ok []
row_lines (row ∷ rows) = do line ← append_cells [] row; lines ← row_lines rows; ok (line ∷ lines)

-- `rowData[0]`
abbrev pub first_cell : Row → Result Bytes
first_cell (some cell ∷ cells) = ok cell
first_cell _ = err undefined

-- `rowData[1]`
abbrev pub second_cell : Row → Result Bytes
second_cell (cell ∷ some cell' ∷ cells) = ok cell'
second_cell _ = err undefined

unfoldable pub append_firsts : Bytes → List Row → Result Bytes
append_firsts text [] = ok text
append_firsts text (row ∷ rows) = do cell ← first_cell row; append_firsts (text ++ cell) rows

unfoldable pub push_seconds : List Bytes → List Row → Result (List Bytes)
push_seconds names [] = ok names
push_seconds names (row ∷ rows) = do cell ← second_cell row; push_seconds (names ++ cell ∷ []) rows

-- `text.erase(text.length() - 2, 2)`
abbrev pub drop_last_two : Bytes → Bytes
drop_last_two text = take (length text - 2) text

abbrev pub select_text : Bytes → Bytes → Bytes
select_text name field =
    bytes "select "
    ++ (if equal field [] then bytes "*" else field)
    ++ bytes " from reminders where name='"
    ++ name
    ++ bytes "';"

abbrev pub count_text : Bytes → Bytes
count_text name = bytes "select count(name) from reminders where name='" ++ name ++ bytes "';'"

-- `_fieldValues[_currField++]`
unfoldable pub assignments : Bytes → List Bytes → List Bytes → Result Bytes
assignments text [] values = ok text
assignments text (field ∷ fields) [] = err undefined
assignments text (field ∷ fields) (value ∷ values) =
    assignments (text ++ field ++ bytes " = '" ++ value ++ bytes "', ") fields values

unfoldable pub update_text : List Bytes → List Bytes → Bytes → Result Bytes
unfolding assignments
update_text names values name = do
  text ← assignments (bytes "update reminders set ") names values
  ok (drop_last_two text ++ bytes " where name='" ++ name ++ bytes "';")

abbrev pub quoted_values : Bytes → List Bytes → Bytes
quoted_values text [] = text
quoted_values text (value ∷ values) =
    quoted_values (text ++ bytes "'" ++ value ++ bytes "', ") values

-- `replace(length() - 2, 2, ");")`
unfoldable pub insert_text : List Bytes → Bytes
insert_text values =
    drop_last_two (quoted_values (bytes "insert into reminders values (") values) ++ bytes ");"
