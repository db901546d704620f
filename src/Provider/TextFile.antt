-- ===== src/Provider/TextFile.antt =====
-- DataProvider/DBTextFile/src/DBTextFile.cpp and filehandler.cpp: the provider that keeps its
-- rows in memory and writes them to one file.
--
-- An iterator into `entries_` is a `Cursor`: what stands before it, what it points to, and what
-- follows. `end()` is `none`. The disk is a map from paths to contents with the permission to
-- open a path; opened for both directions, as `fstream::open(fname)` does, a file must exist.
pub mod Lookup
pub mod Keys
pub mod Storage
pub mod Invariant
pub mod Update
pub mod Fields
use reminder_suite.Prelude.{
  ℕ, Bool, true, false, ◌&&◌, List, [], ◌∷◌, ◌++◌, map, Option, none, some, suc, if◌then◌else◌,
}
use reminder_suite.Prelude.Fault.{Result, ok, err, undefined, ◌>>=◌}
use reminder_suite.Text.{Bytes, equal, tokens, write_each, c_str}
use reminder_suite.Provider.{DbLibrary}
use reminder_suite.Provider.Entry
use reminder_suite.Provider.Entry.{Entry, from_line, as_string, get_value}
use mathlib.Core.Option

pub record Disk : Type 0 where
  pub content : Bytes → Option Bytes
  pub permits : Bytes → Bool

pub record DbTextFile : Type 0 where
  pub db_path : Bytes
  pub field_names : List Bytes
  pub entries : List Entry

pub record Cursor : Type 0 where
  pub before : List Entry
  pub entry : Entry
  pub after : List Entry

-- `DBTextFile(dbPath)`
abbrev pub create : Bytes → DbTextFile
create path = record { db_path = path; field_names = []; entries = [] }

abbrev pub write_file : Disk → Bytes → Bytes → Disk
write_file disk path text = record disk {
  content = λ p. if equal p path then some text else disk.content p;
}

abbrev pub is_some {ℓ} : {A : Type ℓ} → Option A → Bool
is_some none = false
is_some (some a) = true

-- `fileHandler(fname, overwrite)`: the disk afterwards, and whether the stream is open.
unfoldable pub open_file : Disk → Bytes → Bool → Disk × Bool
open_file disk path true =
    if disk.permits path then (write_file disk path [], true) else (disk, false)
open_file disk path false = (disk, disk.permits path && is_some (disk.content path))

-- `getContents()` of the open stream
unfoldable pub get_contents : Disk → Bytes → Bytes
get_contents disk path = Option.get_or (disk.content path) []

-- what `<<` adds behind what the file already holds
abbrev pub write_stream : Disk → Bytes → Bytes → Disk
write_stream disk path text = write_file disk path (Option.get_or (disk.content path) [] ++ text)

abbrev pub push_before : Entry → Cursor → Cursor
push_before e c = record c { before = e ∷ c.before }

-- `find_if(…, getValue(0).compare(name) == 0)`
unfoldable pub find_name : Bytes → List Entry → Result (Option Cursor)
find_name name [] = ok none
find_name name (e ∷ es) = do
  v ← get_value e 0
  let later = (do found ← find_name name es; ok (Option.map (push_before e) found))
  if equal v name then ok (some (record { before = []; entry = e; after = es })) else later

-- `distance(begin, find(fields_, field))`
unfoldable pub find_field : Bytes → List Bytes → Option ℕ
find_field field [] = none
find_field field (f ∷ fs) = if equal f field then some 0 else Option.map suc (find_field field fs)

unfoldable pub fields : DbTextFile → Bytes
fields db = write_each (b':' ∷ []) db.field_names

unfoldable pub get_all : DbTextFile → List Bytes
get_all db = map as_string db.entries

abbrev pub get_field : Entry → Option ℕ → Result Bytes
get_field e none = ok []
get_field e (some i) = get_value e i

abbrev pub get_found : DbTextFile → Bytes → Option Cursor → Result Bytes
get_found db field none = ok []
get_found db field (some c) =
    if equal field []
    then ok (as_string c.entry)
    else get_field c.entry (find_field field db.field_names)

unfoldable pub get : DbTextFile → Bytes → Bytes → Result Bytes
get db name field = do found ← find_name name db.entries; get_found db field found

abbrev pub put_back : Cursor → Entry → List Entry
put_back c e = c.before ++ (e ∷ c.after)

abbrev pub set_found : DbTextFile → Bytes → Option Cursor → DbTextFile × Bool
set_found db csv none = (record db { entries = db.entries ++ from_line csv ∷ [] }, true)
set_found db csv (some c) =
    (record db { entries = put_back c (Entry.set_entry c.entry (from_line csv)).0 }, true)

unfoldable pub set_entry : DbTextFile → Bytes → Bytes → Result (DbTextFile × Bool)
unfolding Entry.set_entry
set_entry db name csv = do found ← find_name name db.entries; ok (set_found db csv found)

abbrev pub set_at : DbTextFile → Cursor → Bytes → Option ℕ → DbTextFile × Bool
set_at db c value none = (db, false)
set_at db c value (some i) =
    let (e, done) = Entry.set_value c.entry i value in (record db { entries = put_back c e }, done)

abbrev pub set_field_found : DbTextFile → Bytes → Bytes → Option Cursor → DbTextFile × Bool
set_field_found db field value none = (db, false)
set_field_found db field value (some c) = set_at db c value (find_field field db.field_names)

unfoldable pub set_field : DbTextFile → Bytes → Bytes → Bytes → Result (DbTextFile × Bool)
set_field db name field value = do
  found ← find_name name db.entries
  ok (set_field_found db field value found)

abbrev pub erase_found : DbTextFile → Option Cursor → DbTextFile × Bool
erase_found db none = (db, false)
erase_found db (some c) = (record db { entries = c.before ++ c.after }, true)

unfoldable pub erase : DbTextFile → Bytes → Result (DbTextFile × Bool)
erase db name = do found ← find_name name db.entries; ok (erase_found db found)

-- The first line holds the names of the fields; the others are appended to the entries.
abbrev pub read_lines : DbTextFile → List Bytes → Result (DbTextFile × Bool)
read_lines db [] = err undefined
read_lines db (l ∷ ls) = ok (
  record db { field_names = (from_line l).values; entries = db.entries ++ map from_line ls },
  true,
)

unfoldable pub read : DbTextFile → Disk → Result (DbTextFile × Bool)
unfolding open_file get_contents
read db disk =
    let path = c_str db.db_path in
    let (disk', opened) = open_file disk path false in
    if opened then read_lines db (tokens b'\n' (get_contents disk' path)) else ok (db, false)

-- What `save` puts into the stream: the names, `endl`, and each entry with a newline.
unfoldable pub saved_text : DbTextFile → Bytes
saved_text db =
    write_each (b':' ∷ []) db.field_names
    ++ (b'\n' ∷ write_each (b'\n' ∷ []) (map as_string db.entries))

-- Both branches return `false`.
unfoldable pub save : DbTextFile → Disk → Disk × Bool
unfolding open_file saved_text
save db disk =
    let path = c_str db.db_path in
    let (disk', opened) = open_file disk path true in
    if opened then (write_stream disk' path (saved_text db), false) else (disk', false)

abbrev pub with_disk : Disk → DbTextFile × Bool → (DbTextFile × Disk) × Bool
with_disk disk (db, b) = ((db, disk), b)

-- The provider that the server loads for the type "file".
abbrev pub text_file : DbLibrary (DbTextFile × Disk)
text_file = record {
  fields = λ s. ok (s, fields s.0);
  get_all = λ s. ok (s, get_all s.0);
  get = λ s name field. (do r ← get s.0 name field; ok (s, r));
  set_entry = λ s name csv. (do r ← set_entry s.0 name csv; ok (with_disk s.1 r));
  set_field = λ s name field v. (do r ← set_field s.0 name field v; ok (with_disk s.1 r));
  erase = λ s name. (do r ← erase s.0 name; ok (with_disk s.1 r));
  read = λ s. (do r ← read s.0 s.1; ok (with_disk s.1 r));
  save = λ s. let (disk, b) = save s.0 s.1 in ok ((s.0, disk), b);
}
