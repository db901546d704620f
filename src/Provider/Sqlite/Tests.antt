-- ===== src/Provider/Sqlite/Tests.antt =====
-- The provider over a small sqlite3 whose tables are always empty, and whose handles are numbers.
use reminder_suite.Prelude.{
  ℕ, suc, Bool, true, false, ◌||◌, List, [], ◌∷◌, ◌==◌, some, Bool-cases, inl, inr, ◌⊎◌,
  if◌then◌else◌, ◌≡◌, refl, arith,
}
use reminder_suite.Prelude.Fault.{ok}
use reminder_suite.Text.{bytes}
use reminder_suite.Provider.Sqlite.{Sqlite, State, create, running, read, open_db, release}
use reminder_suite.Provider.Sqlite.Statements.{statement}
use reminder_suite.Provider.Sqlite.Handles.{Documented}

abbrev contains : List ℕ → ℕ → Bool
contains [] h = false
contains (x ∷ xs) h = x == h || contains xs h

abbrev without : List ℕ → ℕ → List ℕ
without [] h = []
without (x ∷ xs) h = let rest = without xs h in if x == h then rest else x ∷ rest

contains-without : (xs : List ℕ) (h : ℕ) → contains (without xs h) h ≡ false
contains-without [] h = refl
contains-without (x ∷ xs) h = ground (arith, contains-without xs h)

-- The next handle, and those that are open.
abbrev pub Files : Type 0
Files = ℕ × List ℕ

abbrev pub empty_sqlite : Sqlite Files
empty_sqlite = record {
  is_open = λ w h. contains w.1 h;
  open_file = λ w path. ((suc w.0, w.0 ∷ w.1), 0, w.0);
  close = λ w h. (w.0, without w.1 h);
  exec = λ w h sql. (w, [], 0);
  prepare = λ w h sql. (w, 0, 0);
  step = λ w k. (w, 101);
  finalize = λ w k. w;
  backup = λ w to from. w;
  errcode = λ w h. 0;
}

pub empty_sqlite-Documented : Documented empty_sqlite
empty_sqlite-Documented = record {
  open_others = λ w path h e. opened w.0 w.1 h e;
  closed = λ w h. contains-without w.1 h;
  exec_same = λ w k sql h. refl;
  prepare_same = λ w k sql h. refl;
  step_same = λ w k h. refl;
  finalize_same = λ w k h. refl;
}
  where
    opened :
        (n : ℕ) (xs : List ℕ) (h : ℕ)
        → contains (n ∷ xs) h ≡ true
        → (contains xs h ≡ true) ⊎ (h ≡ n)
    opened n xs h e = elim (Bool-cases (n == h)) [
      | inl y ↦ inr (ground arith)
      | inr ne ↦ inl (rw ne at e)
    ]

abbrev pub begin : State empty_sqlite
begin = (create (bytes "/db"), (0, []))

abbrev pub after_read : State empty_sqlite
after_read = (
  record (create (bytes "/db")) { db = some 0; worker = some 1; fields_ready = running },
  (2, 1 ∷ []),
)

pub reads : read empty_sqlite begin ≡ ok (after_read, true)
unfolding read open_db release
reads = refl

abbrev known : State empty_sqlite
known = (record (create (bytes "/db")) { field_names = bytes "name" ∷ bytes "type" ∷ [] }, (0, []))

statement_text :
    statement true
      (bytes "name" ∷ bytes "type" ∷ [])
      (bytes "milk" ∷ bytes "food" ∷ [])
      (bytes "milk")
    ≡ bytes "update reminders set name = 'milk', type = 'food' where name='milk';"
statement_text = refl
