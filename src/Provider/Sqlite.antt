-- ===== src/Provider/Sqlite.antt =====
-- DataProvider/DBSQLite/src/DBSQLite.cpp: the provider that copies a database file into memory and
-- works on the copy.
--
-- The library sqlite3 is a parameter: what each call does to all that lies behind it, the return
-- codes, and which handles are open. A call on a handle that is not open is undefined, as its
-- documentation says.
pub mod Texts
pub mod Statements
pub mod Lexer
pub mod Reading
pub mod Relational
pub mod Stored
pub mod Handles
pub mod Tests
use reminder_suite.Prelude.{
  ℕ, Bool, true, false, not, ◌&&◌, ◌||◌, List, [], ◌∷◌, ◌++◌, Option, none, some, length, ◌==◌,
  take, ◌-◌, if◌then◌else◌,
}
use reminder_suite.Prelude.Fault.{Result, ok, err, undefined, ◌>>=◌}
use reminder_suite.Text.{Bytes, bytes, equal, tokens, write_each, c_str}
use reminder_suite.Provider.{DbLibrary}
use reminder_suite.Provider.Sqlite.Texts.{
  Row, append_cells, append_rows, row_lines, first_cell, second_cell, append_firsts, push_seconds,
  drop_last_two, select_text, count_text, assignments, update_text, quoted_values, insert_text,
}

pub record Sqlite (W : Type 0) : Type 0 where
  pub is_open : W → ℕ → Bool
  -- The return code and the handle.
  pub open_file : W → Bytes → W × ℕ × ℕ
  pub close : W → ℕ → W
  -- The rows that the callback was given, and the return code.
  pub exec : W → ℕ → Bytes → W × List Row × ℕ
  pub prepare : W → ℕ → Bytes → W × ℕ × ℕ
  pub step : W → ℕ → W × ℕ
  pub finalize : W → ℕ → W
  -- From one handle to another: `backup_init`, and `step` and `finish` if that gave an object.
  pub backup : W → ℕ → ℕ → W
  pub errcode : W → ℕ → ℕ

-- `fieldsReady_`: what the thread that reads the fields has come to.
pub data Task : Type 0 where
  absent running : Task
  finished : Bool → Task

pub record DbSqlite : Type 0 where
  pub db_path : Bytes
  pub field_names : List Bytes
  pub db : Option ℕ
  pub worker : Option ℕ
  pub fields_ready : Task

abbrev pub create : Bytes → DbSqlite
create path = record {
  db_path = path;
  field_names = [];
  db = none;
  worker = none;
  fields_ready = absent;
}

abbrev pub done_code : ℕ
done_code = 101

module _ {W : Type 0} (lib : Sqlite W) where
  open lib use {is_open, open_file, close, exec, prepare, step, finalize, backup, errcode}

  -- A call on a handle.
  abbrev pub on_open {ℓ} : {A : Type ℓ} → W → Option ℕ → (ℕ → Result A) → Result A
  on_open w none call = err undefined
  on_open w (some h) call = if is_open w h then call h else err undefined

  -- `unique_ptr::reset`: the handle that was held is closed, whatever the new one is.
  unfoldable pub release : W → Option ℕ → Result W
  release w none = ok w
  release w (some h) = if is_open w h then ok (close w h) else err undefined

  abbrev pub State : Type 0
  State = DbSqlite × W

  abbrev pub opened_db : DbSqlite → W × ℕ × ℕ → Result (State × Bool)
  opened_db p (w, rc, h) =
      if rc == 0
      then (do w' ← release w p.db; ok ((record p { db = some h }, w'), true))
      else ok ((p, w), false)

  unfoldable pub open_db : State → Result (State × Bool)
  unfolding release
  open_db (p, w) = opened_db p (open_file w (c_str p.db_path))

  -- `getFields()`, and that the thread has ended.
  unfoldable pub get_fields : State → Result State
  get_fields (p, w) = on_open w p.worker (λ h. do
    let (w', rows, rc) = exec w h (bytes "pragma table_info('reminders');")
    names ← push_seconds p.field_names rows
    ok (record p { field_names = names; fields_ready = finished (rc == 0) }, w'))

  abbrev pub fields_text : State → Task → Result (State × Bytes)
  fields_text s (finished true) = ok (s, write_each (b':' ∷ []) s.0.field_names)
  fields_text s (finished false) = ok (s, [])
  fields_text s _ = err undefined

  -- `fieldsReady_.get()` waits for the thread.
  abbrev pub wait_fields : State → Task → Result State
  wait_fields s running = get_fields s
  wait_fields s absent = err undefined
  wait_fields s (finished b) = ok s

  unfoldable pub fields : State → Result (State × Bytes)
  unfolding get_fields
  fields s = do s' ← wait_fields s s.0.fields_ready; fields_text s' s'.0.fields_ready

  unfoldable pub get_all : State → Result (State × List Bytes)
  get_all (p, w) = on_open w p.worker (λ h. do
    let (w', rows, rc) = exec w h (bytes "select * from reminders")
    lines ← row_lines rows
    ok ((p, w'), lines))

  unfoldable pub get : State → Bytes → Bytes → Result (State × Bytes)
  get (p, w) name field = on_open w p.worker (λ h. do
    let (w', rows, rc) = exec w h (c_str (select_text name field))
    text ← append_rows [] rows
    ok ((p, w'), text))

  -- An error of the statement is not looked at.
  unfoldable pub already_exists : State → Bytes → Result (State × Bool)
  already_exists (p, w) name = on_open w p.worker (λ h. do
    let (w', rows, rc) = exec w h (c_str (count_text name))
    count ← append_firsts [] rows
    ok ((p, w'), not (equal count (bytes "0"))))

  abbrev pub set_sql : State → Bool → List Bytes → Bytes → Result Bytes
  set_sql s true values name = update_text s.0.field_names values name
  set_sql s false values name = ok (insert_text values)

  abbrev pub stepped : DbSqlite → ℕ → W × ℕ → State × Bool
  stepped p statement (w, rc) =
      if rc == 0 || rc == done_code then ((p, finalize w statement), true) else ((p, w), false)

  -- A text with a null byte ends there.
  abbrev pub prepared : DbSqlite → W × ℕ × ℕ → State × Bool
  prepared p (w, rc, statement) =
      if rc == 0 then stepped p statement (step w statement) else ((p, w), false)

  abbrev pub run_set : State → Bytes → List Bytes → Result (State × Bool)
  run_set s name values = do
    (s', old) ← already_exists s name
    sql ← set_sql s' old values name
    on_open s'.1 s'.0.worker (λ h. ok (prepared s'.0 (prepare s'.1 h (c_str sql))))

  -- The number of values is compared where the fields are known.
  abbrev pub counted_set : State → Bytes → List Bytes → Result (State × Bool)
  counted_set s name values =
      if not (length s.0.field_names == 0) && not (length s.0.field_names == length values)
      then ok (s, false)
      else run_set s name values

  -- While the thread runs, it and this call race for the fields.
  abbrev pub set_when : State → Task → Bytes → Bytes → Result (State × Bool)
  set_when s running name csv = err undefined
  set_when s _ name csv = counted_set s name (tokens b':' csv)

  unfoldable pub set_entry : State → Bytes → Bytes → Result (State × Bool)
  unfolding already_exists
  set_entry s name csv = set_when s s.0.fields_ready name csv

  abbrev pub set_field : State → Bytes → Bytes → Bytes → State × Bool
  set_field s name field value = (s, false)

  abbrev pub erase : State → Bytes → State × Bool
  erase s name = (s, false)

  abbrev pub copied : DbSqlite → W → ℕ → Result (State × Bool)
  copied p w h =
      if errcode w h == 0
      then on_open w p.db (λ d. ok ((record p { fields_ready = running }, close w d), true))
      else ok ((p, w), false)

  abbrev pub opened_memory : DbSqlite → W × ℕ × ℕ → Result (State × Bool)
  opened_memory p (w, rc, h) =
      if rc == 0
      then (do
        w' ← release w p.worker
        on_open w' (some h) (λ to.
            on_open w' p.db (λ from. copied (record p { worker = some h }) (backup w' to from) to)))
      else ok ((p, w), false)

  abbrev pub read_opened : State × Bool → Result (State × Bool)
  read_opened ((p, w), false) = ok ((p, w), false)
  read_opened ((p, w), true) = opened_memory p (open_file w (bytes ":memory:"))

  unfoldable pub read : State → Result (State × Bool)
  unfolding open_db
  read s = do r ← open_db s; read_opened r

  abbrev pub save_opened : State × Bool → Result (State × Bool)
  save_opened (s, false) = ok (s, false)
  save_opened ((p, w), true) = on_open w p.db (λ to.
      on_open w p.worker (λ from. let w' = backup w to from in ok ((p, w'), errcode w' to == 0)))

  unfoldable pub save : State → Result (State × Bool)
  unfolding open_db
  save s = do r ← open_db s; save_opened r

  -- `DBSQLite` as a `DBLibrary`.
  abbrev pub sqlite_library : DbLibrary State
  sqlite_library = record {
    fields = fields;
    get_all = get_all;
    get = get;
    set_entry = set_entry;
    set_field = λ s name field value. ok (set_field s name field value);
    erase = λ s name. ok (erase s name);
    read = read;
    save = save;
  }
