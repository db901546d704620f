-- ===== src/Provider/Sqlite/Statements.antt =====
-- DataProvider/DBSQLite/src/DBSQLite.cpp: the statements that `set` builds, against their form.
use reminder_suite.Prelude.{
  ℕ, ◌-◌, Bool, true, false, List, [], ◌∷◌, ◌++◌, append-nil, append_assoc, length, length-append,
  take-length, ◌≡◌, ◌≢◌, refl, ap, sym, ◌∙◌, arith,
}
use reminder_suite.Prelude.Fault.{ok}
use reminder_suite.Text.{Bytes, bytes}
use reminder_suite.Provider.Sqlite.{Sqlite, State, set_sql}
use reminder_suite.Provider.Sqlite.Texts.{
  drop_last_two, assignments, update_text, quoted_values, insert_text,
}

-- Texts with a comma between each two.
abbrev pub listed : List Bytes → Bytes
listed [] = []
listed (t ∷ []) = t
listed (t ∷ u ∷ us) = t ++ (bytes ", " ++ listed (u ∷ us))

abbrev pub literal : Bytes → Bytes
literal value = bytes "'" ++ (value ++ bytes "'")

abbrev pub literals : List Bytes → List Bytes
literals [] = []
literals (v ∷ vs) = literal v ∷ literals vs

-- Each field with the value at its place.
abbrev pub equations : List Bytes → List Bytes → List Bytes
equations [] values = []
equations (f ∷ fs) [] = []
equations (f ∷ fs) (v ∷ vs) = (f ++ (bytes " = " ++ literal v)) ∷ equations fs vs

abbrev pub statement : Bool → List Bytes → List Bytes → Bytes → Bytes
statement true names values name =
    bytes "update reminders set "
    ++ (listed (equations names values) ++ (bytes " where name=" ++ (literal name ++ bytes ";")))
statement false names values name =
    bytes "insert into reminders values (" ++ (listed (literals values) ++ bytes ");")

drop_last_two-append : (s : Bytes) (a b : ℕ) → drop_last_two (s ++ (a ∷ b ∷ [])) ≡ s
drop_last_two-append s a b =
    let e : length (s ++ (a ∷ b ∷ [])) - 2 ≡ length s =
      omega (arith, length-append s (a ∷ b ∷ [])) in
    rw e (take-length s (a ∷ b ∷ []))

-- Every text with a comma behind it.
abbrev ended : List Bytes → Bytes
ended [] = []
ended (t ∷ ts) = t ++ (bytes ", " ++ ended ts)

ended-listed : (t : Bytes) (ts : List Bytes) → ended (t ∷ ts) ≡ listed (t ∷ ts) ++ bytes ", "
ended-listed t [] = refl
ended-listed t (u ∷ us) =
    ap (λ r. t ++ (bytes ", " ++ r)) (ended-listed u us)
    ∙ sym (append_assoc t (bytes ", " ++ listed (u ∷ us)) (bytes ", "))

assignments-ended :
    (text : Bytes) (fs vs : List Bytes)
    → length fs ≡ length vs
    → assignments text fs vs ≡ ok (text ++ ended (equations fs vs))
unfolding assignments
assignments-ended text [] vs h = ap ok (sym (append-nil text))
assignments-ended text (f ∷ fs) [] h = absurd (omega arith)
assignments-ended text (f ∷ fs) (v ∷ vs) h =
    assignments-ended (text ++ f ++ bytes " = '" ++ v ++ bytes "', ") fs vs (omega arith)
    ∙ ap ok (simp append_assoc)

quoted_values-ended :
    (text : Bytes) (vs : List Bytes) → quoted_values text vs ≡ text ++ ended (literals vs)
quoted_values-ended text [] = sym (append-nil text)
quoted_values-ended text (v ∷ vs) =
    quoted_values-ended (text ++ bytes "'" ++ v ++ bytes "', ") vs ∙ simp append_assoc

drop_last_two-ended :
    (text t : Bytes) (ts : List Bytes)
    → drop_last_two (text ++ ended (t ∷ ts)) ≡ text ++ listed (t ∷ ts)
drop_last_two-ended text t ts =
    ap (λ r. drop_last_two (text ++ r)) (ended-listed t ts)
    ∙ ap drop_last_two (sym (append_assoc text (listed (t ∷ ts)) (bytes ", ")))
    ∙ drop_last_two-append (text ++ listed (t ∷ ts)) b',' b' '

update_text-statement :
    (names values : List Bytes) (name : Bytes)
    → names ≢ []
    → length names ≡ length values
    → update_text names values name ≡ ok (statement true names values name)
unfolding update_text
update_text-statement [] values name ne h = absurd (ne refl)
update_text-statement (n ∷ ns) [] name ne h = absurd (omega arith)
update_text-statement (n ∷ ns) (v ∷ vs) name ne h =
    rw
      (
        assignments-ended (bytes "update reminders set ") (n ∷ ns) (v ∷ vs) h,
        drop_last_two-ended (bytes "update reminders set ") (n ++ (bytes " = " ++ literal v))
            (equations ns vs),
      )
      (ap ok (simp append_assoc))

pub insert_text-statement :
    (names values : List Bytes) (name : Bytes)
    → values ≢ []
    → insert_text values ≡ statement false names values name
unfolding insert_text
insert_text-statement names [] name ne = absurd (ne refl)
insert_text-statement names (v ∷ vs) name ne =
    rw
      (
        quoted_values-ended (bytes "insert into reminders values (") (v ∷ vs),
        drop_last_two-ended (bytes "insert into reminders values (") (literal v) (literals vs),
      )
      (simp append_assoc)

nil-length : (fs vs : List Bytes) → length fs ≡ length vs → vs ≡ [] → fs ≡ []
nil-length [] vs h e = refl
nil-length (f ∷ fs) [] h e = absurd (omega arith)
nil-length (f ∷ fs) (v ∷ vs) h e = cc

-- Where the table has a field, and there are as many values as fields, `set` builds the statement
-- that is meant: the equations or the literals with a comma between each two, and none behind.
pub set_sql-statement :
    {W : Type 0} (lib : Sqlite W) (s : State lib) (old : Bool) (values : List Bytes) (name : Bytes)
    → s.0.field_names ≢ []
    → length s.0.field_names ≡ length values
    → set_sql lib s old values name ≡ ok (statement old s.0.field_names values name)
set_sql-statement lib s true values name some_field same =
    update_text-statement s.0.field_names values name some_field same
set_sql-statement lib s false values name some_field same = ap ok (
    insert_text-statement s.0.field_names values name
      (λ e. some_field (nil-length s.0.field_names values same e)))
