-- ===== src/Chain/Json.antt =====
-- HttpWrapper/src/rdb_handler.cpp over the data server: the JSON that "/rdb/fields" and "/rdb/get"
-- are answered with, against the table.
use reminder_suite.Prelude.{◌≤◌, ◌<◌, List, [], ◌∷◌, ◌++◌, All, some, map, length, ◌≡◌, ◌∙◌, arith}
use reminder_suite.Prelude.Fault.{err, undefined}
use reminder_suite.Text.{bytes, Free, equal, tokens}
use reminder_suite.Text.Tokens.{tokens-append_last}
use reminder_suite.Provider.Entry.{Entry, as_string, as_string-Free}
use reminder_suite.Provider.TextFile.{DbTextFile, fields, get_all}
use reminder_suite.Provider.TextFile.Storage.{IsStorable, map-as_string-Free}
use reminder_suite.Session.{do_write, write_lines}
use reminder_suite.Client.{Network, stream_size, execute_cmd}
use reminder_suite.Http.Rdb.{PropertyTree, parse_call}
use reminder_suite.Chain.{
  Server, Delivers, execute_cmd-Exchange, fields_answer, get_answer, tokens-write_lines,
}
use reminder_suite.Chain.Rows.{tokens-as_string, push_rows-wide}

tokens-fields : (db : DbTextFile) → IsStorable db → tokens b':' (fields db) ≡ db.field_names
unfolding fields as_string
tokens-fields db h = tokens-as_string (record { values = db.field_names }) h.names

fields-Free : (db : DbTextFile) → IsStorable db → Free b'\n' (fields db)
unfolding fields as_string
fields-Free db h = as_string-Free (record { values = db.field_names }) h.names.no_newline

module _ (pt : PropertyTree) {S : Type 0} (net : Network S) (behind : S → Server)
    (delivers : Delivers net behind) (s : S) (storable : IsStorable (behind s).0)
    (short : length (do_write (fields (behind s).0)) ≤ stream_size) where
  open pt use {empty}

  abbrev table : DbTextFile
  table = (behind s).0

  fields_told :
      (s' : S) × (execute_cmd net s (bytes "/fields") [] ≡ (s', some (fields table ∷ [])))
      × (behind s' ≡ behind s)
  fields_told =
      let (s', e, b) =
        execute_cmd-Exchange net behind s
          (delivers s (bytes "/fields") _ _ (omega arith) short (fields_answer (behind s))) in
      (s', e ∙ rw (tokens-append_last b'\n' (fields table) (fields-Free table storable)), b)

  get_told :
      (s' : S)
      → behind s' ≡ behind s
      → length (do_write (write_lines (get_all table))) ≤ stream_size
      → (s'' : S) × (execute_cmd net s' (bytes "/get") []
          ≡ (s'', some (map as_string table.entries ++ [] ∷ [])))
        × (behind s'' ≡ behind s)
  unfolding get_all
  get_told s' same small =
      let (s'', e, b) = execute_cmd-Exchange net behind s' (
        delivers s' (bytes "/get") _ (behind s) (omega arith) small
          (rw same (get_answer (behind s)))) in
      (
        s'',
        e
            ∙ rw (
                tokens-write_lines (map as_string table.entries)
                  (map-as_string-Free table.entries storable.rows)),
        b,
      )

  -- Over such a table, where "/fields" and the entries each fit one read, "/rdb/get" is undefined as
  -- soon as one entry, here the first such one, has more values than there are fields.
  pub json_get_wide :
      (before : List Entry) (e : Entry) (after : List Entry)
      → length (do_write (write_lines (get_all table))) ≤ stream_size
      → table.entries ≡ before ++ (e ∷ after)
      → All (λ e. length e.values ≤ length table.field_names) before
      → length table.field_names < length e.values
      → parse_call pt (λ s cmd. execute_cmd net s cmd []) s (bytes "/rdb/get") ≡ err undefined
  unfolding parse_call equal
  json_get_wide before e after small split narrow wide =
      let (s', a, b) = fields_told in
      let (s'', a', b') = get_told s' b small in
      rw (a, tokens-fields table storable, a', split)
        (rw (
          push_rows-wide pt empty table.field_names before e after (rw split at storable.rows)
            narrow wide))
