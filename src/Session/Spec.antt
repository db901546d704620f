-- ===== src/Session/Spec.antt =====
-- Server/src/session.cpp: what the commands mean for a client, on a table that is nothing but its
-- fields and what each name stands for. The order of the rows and their storage are forgotten.
use reminder_suite.Prelude.{
  ℕ, true, false, List, [], ◌∷◌, ◌++◌, map, Option, none, some, get_elem?, if◌then◌else◌, ◌≡◌,
}
use reminder_suite.Text.{Bytes, bytes, equal, write_each, before_first}
use reminder_suite.Provider.Entry.{Entry, from_line, as_string}
use reminder_suite.Provider.TextFile.{find_field, is_some}
use reminder_suite.Provider.TextFile.Lookup.{lookup}
use reminder_suite.Provider.TextFile.Keys.{IsDistinct}
use reminder_suite.Provider.TextFile.Fields.{accepts, replaced}
use reminder_suite.Session.{
  build_error, write_lines, field_argument, found_or_error, set_entry_reply, set_field_reply,
  delete_reply, commit_reply,
}

pub record Catalogue : Type 0 where
  pub names : List Bytes
  pub find : Bytes → Option Entry

abbrev pub assign : Catalogue → Bytes → Option Entry → Catalogue
assign t name o = record t { find = λ k. if equal name k then o else t.find k }

-- The answer to a command: a text, or a listing of the rows in some order.
pub data Told : Type 0 where
  exactly : Bytes → Told
  listing : Told

abbrev pub Tells : Catalogue → Told → Bytes → Type 0
Tells t (exactly answer) text = text ≡ answer
Tells t listing text =
    (es : List Entry) × (text ≡ write_lines (map as_string es))
    × IsDistinct es
    × ((k : Bytes) → lookup k es ≡ t.find k)

abbrev pub or_empty : Option Bytes → Bytes
or_empty none = []
or_empty (some v) = v

abbrev pub field_text : Entry → Option ℕ → Bytes
field_text e none = []
field_text e (some i) = or_empty (get_elem? e.values i)

abbrev pub row_text : List Bytes → Bytes → Option Entry → Bytes
row_text names field none = []
row_text names field (some e) =
    if equal field [] then as_string e else field_text e (find_field field names)

abbrev pub means_get : Catalogue → Bytes → List Bytes → Catalogue × Told
means_get t cmd [] = (t, listing)
means_get t cmd (name ∷ rest) =
    (t, exactly (found_or_error cmd (row_text t.names (field_argument rest) (t.find name))))

-- A success is told as a failure.
abbrev pub means_set : Catalogue → List Bytes → Catalogue × Told
means_set t (line ∷ []) =
    (assign t (before_first b':' line) (some (from_line line)), exactly (set_entry_reply true))
means_set t (name ∷ field ∷ value ∷ []) =
    let at = find_field field t.names in
    (
      assign t name (replaced at value (t.find name)),
      exactly (set_field_reply (accepts at (t.find name))),
    )
means_set t _ = (t, exactly (build_error (bytes "ERROR: set requires either 2 or 4 parameters")))

abbrev pub means_delete : Catalogue → List Bytes → Catalogue × Told
means_delete t [] = (t, listing)
means_delete t (name ∷ rest) =
    (assign t name none, exactly (delete_reply name (is_some (t.find name))))

abbrev pub means : Catalogue → Bytes → List Bytes → Catalogue × Told
means t cmd [] = (t, exactly (bytes "ERROR: Not valid query: " ++ cmd))
means t cmd (verb ∷ args) =
    if equal verb (bytes "get")
    then means_get t cmd args
    else if equal verb (bytes "set")
    then means_set t args
    else if equal verb (bytes "delete")
    then means_delete t args
    else if equal verb (bytes "fields")
    then (t, exactly (write_each (b':' ∷ []) t.names))
    else if equal verb (bytes "commit")
    then (t, exactly (commit_reply false))
    else (t, exactly (bytes "ERROR: Unrecognized command: " ++ cmd))
