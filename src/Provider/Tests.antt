-- ===== src/Provider/Tests.antt =====
-- Runs of the text-file provider on a small table, and the theorems about it at that table.
use reminder_suite.Prelude.{true, [], ◌∷◌, All, some, none, if◌then◌else◌, ◌≡◌, ◌≢◌, refl, arith}
use reminder_suite.Prelude.Fault.{ok}
use reminder_suite.Text.{Bytes, bytes, equal, tokens}
use reminder_suite.Provider.Entry.{Entry, from_line, get_value}
use reminder_suite.Provider.TextFile.{
  set_field, DbTextFile, Disk, create, find_field, find_name, set_entry, get, erase, read, save,
  is_some,
}
use reminder_suite.Provider.TextFile.Lookup.{HasName, lookup}
use reminder_suite.Provider.TextFile.Fields.{accepts, replaced, lookup-set_field}
use reminder_suite.Provider.TextFile.Update.{lookup-set_entry, lookup-erase}
use reminder_suite.Provider.TextFile.Keys.{IsDistinct, erase-IsDistinct}
use reminder_suite.Provider.TextFile.Storage.{IsStorable, read-save, read-IsStorable}
use reminder_suite.Provider.TextFile.Invariant.{IsWide}

abbrev pub milk : Entry
milk = record { values = bytes "milk" ∷ bytes "food" ∷ [] }

abbrev pub gym : Entry
gym = record { values = bytes "gym" ∷ bytes "sport" ∷ [] }

abbrev pub table : DbTextFile
table = record {
  db_path = bytes "/rdb";
  field_names = bytes "name" ∷ bytes "type" ∷ [];
  entries = milk ∷ gym ∷ [];
}

-- A disk where every path may be opened, and every file holds this text.
abbrev pub disk_of : Bytes → Disk
disk_of text = record { content = λ p. some text; permits = λ p. true }

pub table-HasName : All HasName table.entries
table-HasName = (λ e. cc, (λ e. cc, tt))

pub table-IsWide : IsWide table
table-IsWide = omega arith

pub table-IsDistinct : IsDistinct table.entries
unfolding equal
table-IsDistinct = (refl, (refl, tt))

pub table-IsStorable : IsStorable table
table-IsStorable = record {
  names = record { some_value = λ e. cc; no_colon = omega arith; no_newline = omega arith };
  rows = (
    record { some_value = λ e. cc; no_colon = omega arith; no_newline = omega arith },
    (record { some_value = λ e. cc; no_colon = omega arith; no_newline = omega arith }, tt),
  );
}

get_gym : get table (bytes "gym") (bytes "type") ≡ ok (bytes "sport")
unfolding get find_name equal find_field get_value
get_gym = refl

lookup-set_entry_example :
    (db : DbTextFile) × (set_entry table (bytes "gym") (bytes "gym:club") ≡ ok (db, true))
    × ((k : Bytes)
        → lookup k db.entries ≡ (
            if equal (bytes "gym") k
            then some (from_line (bytes "gym:club"))
            else lookup k table.entries))
lookup-set_entry_example =
    lookup-set_entry table (bytes "gym") (bytes "gym:club") table-HasName
      (unfold from_line tokens in refl)

lookup-erase_example :
    (db : DbTextFile) × (erase table (bytes "gym")
      ≡ ok (db, is_some (lookup (bytes "gym") table.entries)))
    × ((k : Bytes) → k ≢ bytes "gym" → lookup k db.entries ≡ lookup k table.entries)
lookup-erase_example = lookup-erase table (bytes "gym") table-HasName

erase-IsDistinct_example :
    (db : DbTextFile) × (erase table (bytes "milk")
      ≡ ok (db, is_some (lookup (bytes "milk") table.entries)))
    × IsDistinct db.entries
    × (lookup (bytes "milk") db.entries ≡ none)
erase-IsDistinct_example = erase-IsDistinct table (bytes "milk") table-HasName table-IsDistinct

read-save_example :
    read (create (bytes "/rdb")) (save table (disk_of (bytes "old"))).0 ≡ ok (table, true)
read-save_example = read-save table (disk_of (bytes "old")) table-IsStorable refl

read-IsStorable_example :
    (db : DbTextFile) × (read (create (bytes "/rdb")) (disk_of (bytes "name:type\n\n:x"))
      ≡ ok (db, true))
    × IsStorable db
    × (db.db_path ≡ bytes "/rdb")
read-IsStorable_example =
    read-IsStorable (bytes "/rdb") (bytes "name:type\n\n:x") (disk_of (bytes "name:type\n\n:x"))
      refl refl

-- A row with a name and nothing else.
abbrev short_row : Entry
short_row = record { values = bytes "run" ∷ [] }

abbrev short_table : DbTextFile
short_table = record table { entries = short_row ∷ [] }

lookup-set_field_example :
    (db : DbTextFile) × (set_field table (bytes "gym") (bytes "type") (bytes "club")
      ≡ ok (
        db,
        accepts (find_field (bytes "type") table.field_names) (lookup (bytes "gym") table.entries),
      ))
    × ((k : Bytes)
        → lookup k db.entries ≡ (
            if equal (bytes "gym") k
            then replaced
                (find_field (bytes "type") table.field_names)
                (bytes "club")
                (lookup (bytes "gym") table.entries)
            else lookup k table.entries))
lookup-set_field_example =
    lookup-set_field table (bytes "gym") (bytes "type") (bytes "club") table-HasName
      (unfold find_field equal in λ e. cc)
