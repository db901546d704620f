-- ===== src/Session/Refinement.antt =====
-- Server/src/session.cpp over the text file, against what the commands mean.
use mathlib.Core.Path.{subst}
use reminder_suite.Prelude.{
  ℕ, ◌≤◌, Bool, false, List, [], ◌∷◌, Option, none, some, All, All-map, length, length-set, inl,
  inr, Bool-cases, if◌then◌else◌, ◌≡◌, ◌≢◌, refl, ap, sym, ◌∙◌, arith,
}
use reminder_suite.Prelude.Fault.{Result, ok}
use reminder_suite.Text.{Bytes, equal, equal_iff, write_each, before_first, c_str}
use reminder_suite.Text.Tokens.{tokens-ne-nil}
use reminder_suite.Provider.Entry.{Entry, from_line, set_value, set_value-ne-nil, get_value}
use reminder_suite.Provider.TextFile.{
  DbTextFile, Disk, text_file, fields, get_all, get, save, find_field,
}
use reminder_suite.Provider.TextFile.Lookup.{HasName, lookup, get-lookup, answer}
use reminder_suite.Provider.TextFile.Update.{lookup-set_entry, lookup-erase}
use reminder_suite.Provider.TextFile.Keys.{IsDistinct, set_entry-IsDistinct, erase-IsDistinct}
use reminder_suite.Provider.TextFile.Fields.{lookup-set_field, set_field-IsDistinct}
use reminder_suite.Provider.TextFile.Invariant.{
  SameTable, IsWide, set_entry-All, set_field-All, erase-All, get-total,
}
use reminder_suite.Session.{
  write_lines, commit_reply, field_argument, run_get, run_set, run_delete, run_commit, run_fields,
}
use reminder_suite.Session.Outcome.{State}
use reminder_suite.Session.Replies.{key-from_line}
use reminder_suite.Session.Spec.{
  Catalogue, Told, exactly, Tells, row_text, means_get, means_set, means_delete,
}

-- The view that forgets the order of the rows and where they are stored.
abbrev pub catalogue : DbTextFile → Catalogue
catalogue db = record { names = db.field_names; find = λ k. lookup k db.entries }

-- An entry of a table with these fields: it has a name, and a value for each field.
abbrev IsFull : List Bytes → Entry → Type 0
IsFull names e = HasName e × (length names ≤ length e.values)

pub record IsRegular (db : DbTextFile) : Type 0 where
  pub full : All (IsFull db.field_names) db.entries
  pub distinct : IsDistinct db.entries

named : {db : DbTextFile} → IsRegular db → All HasName db.entries
named {db} r = All-map (λ e f. f.0) db.entries r.full

wide : {db : DbTextFile} → IsRegular db → IsWide db
wide {db} r = All-map (λ e f. f.1) db.entries r.full

Catalogue_path :
    (db : DbTextFile) (t : Catalogue)
    → db.field_names ≡ t.names
    → ((k : Bytes) → lookup k db.entries ≡ t.find k)
    → catalogue db ≡ t
Catalogue_path db t n f = λ i. record { names = n i; find = λ k. f k i }

-- Two runs of one operation leave the same table.
determined :
    {r : Result (DbTextFile × Bool)} {a b : DbTextFile} {c d : Bool}
    → r ≡ ok (a, c)
    → r ≡ ok (b, d)
    → a ≡ b
determined e f = cc

length-set_value :
    (e : Entry) (i : ℕ) (v : Bytes) → length (set_value e i v).0.values ≡ length e.values
unfolding set_value
length-set_value e i v = ground (arith, length-set e.values i v)

set_value-IsFull :
    (names : List Bytes) (v : Bytes) (e : Entry) (i : ℕ)
    → IsFull names e
    → IsFull names (set_value e i v).0
set_value-IsFull names v e i f = (set_value-ne-nil e i v f.0, rw (length-set_value e i v) f.1)

updated-IsRegular :
    (db db' : DbTextFile) {db'' : DbTextFile}
    → db'' ≡ db'
    → All (IsFull db.field_names) db''.entries
    → SameTable db db''
    → IsDistinct db'.entries
    → IsRegular db' × (db'.field_names ≡ db.field_names)
updated-IsRegular db db' p full same d = (
  record {
    full = subst (λ x. All (IsFull x.field_names) x.entries) p (rw same.names full);
    distinct = d;
  },
  subst (λ x. x.field_names ≡ db.field_names) p same.names,
)

-- An answered command: the table is regular again, its view is the one meant, and so is the text.
pub record Refines (meant : Catalogue × Told) (r : Result (State × Bytes)) : Type 0 where
  pub state : State
  pub text : Bytes
  pub answered : r ≡ ok (state, text)
  pub regular : IsRegular state.0
  pub view : catalogue state.0 ≡ meant.0
  pub told : Tells meant.0 meant.1 text

line-HasName : (line : Bytes) → HasName (from_line line)
unfolding from_line
line-HasName line = tokens-ne-nil b':' line

answer-row_text :
    (names : List Bytes) (field : Bytes) (o : Option Entry) {t : Bytes}
    → answer names field o ≡ ok t
    → t ≡ row_text names field o
unfolding get_value
answer-row_text names field none h = cc
answer-row_text names field (some e) h = ground arith

get-row_text :
    (db : DbTextFile) (name field : Bytes)
    → IsRegular db
    → get db name field ≡ ok (row_text db.field_names field (lookup name db.entries))
get-row_text db name field r =
    let (t, e) = get-total db name field (named r) (wide r) in
    e
    ∙ ap ok (
        answer-row_text db.field_names field (lookup name db.entries)
          (sym (get-lookup db name field (named r)) ∙ e))

-- `save` never reports a success.
save_cases : (db : DbTextFile) (disk : Disk) → (disk' : Disk) × (save db disk ≡ (disk', false))
unfolding save
save_cases db disk = elim (Bool-cases (disk.permits (c_str db.db_path))) [
  | inl p ↦ rw p (_, refl)
  | inr n ↦ rw n (_, refl)
]

erased :
    (name : Bytes) (old new : DbTextFile)
    → lookup name new.entries ≡ none
    → ((k : Bytes) → k ≢ name → lookup k new.entries ≡ lookup k old.entries)
    → (k : Bytes) → lookup k new.entries ≡ (if equal name k then none else lookup k old.entries)
erased name old new gone f k = elim (Bool-cases (equal name k)) [
  | inl e ↦ rw (e, ← (equal_iff name k).0 e) gone
  | inr n ↦ rw n (f k (ground (arith, equal_iff name k)))
]

module _ (s : State) (r : IsRegular s.0) where
  pub unchanged : (text : Bytes) → Refines (catalogue s.0, exactly text) (ok (s, text))
  unchanged text = record {
    state = s;
    text = text;
    answered = refl;
    regular = r;
    view = refl;
    told = refl;
  }

  pub run_set_line-Refines :
      (line : Bytes)
      → length s.0.field_names ≤ length (from_line line).values
      → Refines (means_set (catalogue s.0) (line ∷ [])) (run_set text_file s (line ∷ []))
  unfolding run_set
  run_set_line-Refines line w =
      let name : Bytes = before_first b':' line in
      let h = named r in
      let (db, e, f) = lookup-set_entry s.0 name line h (key-from_line line) in
      let (db', e', a, same) =
        set_entry-All (IsFull s.0.field_names) s.0 h r.full name line (line-HasName line, w) in
      let (db'', e'', d) = set_entry-IsDistinct s.0 name line h r.distinct (key-from_line line) in
      let (reg, n) =
        updated-IsRegular s.0 db (determined e' e) a same
          (subst (λ x. IsDistinct x.entries) (determined e'' e) d) in
      rw e (record {
        state = (db, s.1);
        text = _;
        answered = refl;
        regular = reg;
        view = Catalogue_path db _ n f;
        told = refl;
      })

  pub run_set_field-Refines :
      (name field value : Bytes)
      → find_field field s.0.field_names ≢ some 0
      → Refines
          (means_set (catalogue s.0) (name ∷ field ∷ value ∷ []))
          (run_set text_file s (name ∷ field ∷ value ∷ []))
  unfolding run_set
  run_set_field-Refines name field value later =
      let h = named r in
      let (db, e, f) = lookup-set_field s.0 name field value h later in
      let (db', done', e', a, same) =
        set_field-All (IsFull s.0.field_names) s.0 h r.full name field value
          (set_value-IsFull s.0.field_names value) in
      let (db'', done'', e'', d) = set_field-IsDistinct s.0 name field value h r.distinct later in
      let (reg, n) =
        updated-IsRegular s.0 db (determined e' e) a same
          (subst (λ x. IsDistinct x.entries) (determined e'' e) d) in
      rw e (record {
        state = (db, s.1);
        text = _;
        answered = refl;
        regular = reg;
        view = Catalogue_path db _ n f;
        told = refl;
      })

  pub run_delete-Refines :
      (name : Bytes) (rest : List Bytes)
      → Refines (means_delete (catalogue s.0) (name ∷ rest)) (run_delete text_file s (name ∷ rest))
  unfolding run_delete
  run_delete-Refines name rest =
      let h = named r in
      let (db, e, f) = lookup-erase s.0 name h in
      let (db', done', e', a, same) = erase-All (IsFull s.0.field_names) s.0 h r.full name in
      let (db'', e'', d, gone) = erase-IsDistinct s.0 name h r.distinct in
      let (reg, n) =
        updated-IsRegular s.0 db (determined e' e) a same
          (subst (λ x. IsDistinct x.entries) (determined e'' e) d) in
      rw e (record {
        state = (db, s.1);
        text = _;
        answered = refl;
        regular = reg;
        view = Catalogue_path db _ n (
            erased name s.0 db (subst (λ x. lookup name x.entries ≡ none) (determined e'' e) gone)
              f);
        told = refl;
      })

  pub run_get-Refines :
      (cmd : Bytes) (args : List Bytes)
      → Refines (means_get (catalogue s.0) cmd args) (run_get text_file s cmd args)
  unfolding run_get get_all
  run_get-Refines cmd [] = record {
    state = s;
    text = write_lines (get_all s.0);
    answered = refl;
    regular = r;
    view = refl;
    told = (s.0.entries, refl, r.distinct, λ k. refl);
  }
  run_get-Refines cmd (name ∷ rest) =
      rw (get-row_text s.0 name (field_argument rest) r) (unchanged _)

  pub run_fields-Refines :
      Refines
        (catalogue s.0, exactly (write_each (b':' ∷ []) s.0.field_names))
        (run_fields text_file s)
  unfolding fields
  run_fields-Refines = unchanged _

  pub run_commit-Refines :
      Refines (catalogue s.0, exactly (commit_reply false)) (run_commit text_file s)
  unfolding run_commit
  run_commit-Refines =
      let (disk, e) = save_cases s.0 s.1 in
      rw e (record {
        state = (s.0, disk);
        text = _;
        answered = refl;
        regular = r;
        view = refl;
        told = refl;
      })
