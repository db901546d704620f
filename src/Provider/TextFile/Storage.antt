-- ===== src/Provider/TextFile/Storage.antt =====
-- DataProvider/DBTextFile/src/DBTextFile.cpp: `save` and `read`, on the same path.
use reminder_suite.Prelude.{true, List, [], ◌∷◌, map, some, All, ◌≡◌, ◌≢◌, refl}
use reminder_suite.Prelude.Fault.{ok}
use reminder_suite.Text.{Bytes, Free, equal_refl, tokens, write_each, c_str}
use reminder_suite.Text.Tokens.{tokens-write_each, tokens-ne-nil, All-tokens}
use reminder_suite.Provider.Entry.{
  Entry, from_line, as_string, IsRow, from_line-as_string, from_line-IsRow, as_string-Free,
}
use reminder_suite.Provider.TextFile.{DbTextFile, Disk, create, read_lines, read, saved_text, save}

-- All that the file format can hold: the names of the fields are a row too.
pub record IsStorable (db : DbTextFile) : Type 0 where
  pub names : IsRow (record { values = db.field_names })
  pub rows : All IsRow db.entries

abbrev lines : DbTextFile → List Bytes
lines db = map as_string ((record { values = db.field_names }) ∷ db.entries)

saved_text-lines : (db : DbTextFile) → saved_text db ≡ write_each (b'\n' ∷ []) (lines db)
unfolding saved_text write_each as_string
saved_text-lines db = refl

pub map-as_string-Free : (es : List Entry) → All IsRow es → All (Free b'\n') (map as_string es)
map-as_string-Free [] h = tt
map-as_string-Free (e ∷ es) h = (as_string-Free e h.0.no_newline, map-as_string-Free es h.1)

map-from_line-as_string : (es : List Entry) → All IsRow es → map from_line (map as_string es) ≡ es
map-from_line-as_string [] h = refl
map-from_line-as_string (e ∷ es) h = rw (from_line-as_string e h.0, map-from_line-as_string es h.1)

tokens-saved_text : (db : DbTextFile) → IsStorable db → tokens b'\n' (saved_text db) ≡ lines db
tokens-saved_text db h = rw saved_text-lines (
    tokens-write_each b'\n' _ (map as_string db.entries)
      (as_string-Free _ h.names.no_newline, map-as_string-Free db.entries h.rows))

read_lines-lines :
    (db : DbTextFile) → IsStorable db → read_lines (create db.db_path) (lines db) ≡ ok (db, true)
read_lines-lines db h =
    rw (from_line-as_string _ h.names, map-from_line-as_string db.entries h.rows)

-- A table that the format can hold, saved where the process may write, is what a new provider on
-- that path reads.
pub read-save :
    (db : DbTextFile) (disk : Disk)
    → IsStorable db
    → disk.permits (c_str db.db_path) ≡ true
    → read (create db.db_path) (save db disk).0 ≡ ok (db, true)
unfolding read save
read-save db disk h p = rw (p, equal_refl, p, tokens-saved_text db h) (read_lines-lines db h)

map-from_line-IsRow : (ls : List Bytes) → All (Free b'\n') ls → All IsRow (map from_line ls)
map-from_line-IsRow [] h = tt
map-from_line-IsRow (l ∷ ls) h = (from_line-IsRow l h.0, map-from_line-IsRow ls h.1)

read_lines-IsStorable :
    (path : Bytes) (ls : List Bytes)
    → ls ≢ []
    → All (Free b'\n') ls
    → (db : DbTextFile) × (read_lines (create path) ls ≡ ok (db, true))
      × IsStorable db
      × (db.db_path ≡ path)
read_lines-IsStorable path [] ne h = absurd (ne refl)
read_lines-IsStorable path (l ∷ ls) ne h = (
  record { db_path = path; field_names = (from_line l).values; entries = map from_line ls },
  refl,
  record { names = from_line-IsRow l h.0; rows = map-from_line-IsRow ls h.1 },
  refl,
)

-- A new provider reads any file that it can open, whatever bytes it holds, and then holds a table
-- that the format can hold.
pub read-IsStorable :
    (path text : Bytes) (disk : Disk)
    → disk.permits (c_str path) ≡ true
    → disk.content (c_str path) ≡ some text
    → (db : DbTextFile) × (read (create path) disk ≡ ok (db, true))
      × IsStorable db
      × (db.db_path ≡ path)
unfolding read
read-IsStorable path text disk p e =
    rw (p, e)
      (read_lines-IsStorable path (tokens b'\n' text) (tokens-ne-nil b'\n' text)
        (All-tokens b'\n' text))
