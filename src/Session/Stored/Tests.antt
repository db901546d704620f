-- ===== src/Session/Stored/Tests.antt =====
-- A sqlite3 that keeps one table of two columns and reads no more of a statement than its kind and its
-- literals, and a row that is stored in it.
use reminder_suite.Prelude.{true, List, [], ◌∷◌, ◌++◌, map, some, length, ◌≡◌, refl, ap, ◌∙◌}
use reminder_suite.Text.{Bytes, bytes}
use reminder_suite.Http.Reply.Decimal.{to_decimal}
use reminder_suite.Provider.Sqlite.{Sqlite, State, create, finished}
use reminder_suite.Provider.Sqlite.Texts.{Row}
use reminder_suite.Provider.Sqlite.Lexer.{Token, word, lit, sign, unclosed, scan}
use reminder_suite.Provider.Sqlite.Reading.{value_tokens}
use reminder_suite.Provider.Sqlite.Relational.{Relational, named, cells}
use reminder_suite.Session.Requests.{path}

-- The rows, and the values of the statement that was compiled last.
abbrev Files : Type 0
Files = List (List Bytes) × List Bytes

abbrev lits : List Token → List Bytes
lits [] = []
lits (lit v ∷ ts) = v ∷ lits ts
lits (word w ∷ ts) = lits ts
lits (sign c ∷ ts) = lits ts
lits (unclosed ∷ ts) = lits ts

abbrev select_rows : List (List Bytes) → List Bytes → List Row
select_rows rows [] = []
select_rows rows (name ∷ names) = map cells (named name rows)

abbrev count_rows : List (List Bytes) → List Bytes → List Row
count_rows rows [] = []
count_rows rows (name ∷ names) = (some (to_decimal (length (named name rows))) ∷ []) ∷ []

abbrev answer : List (List Bytes) → List Token → List Row
answer rows (t ∷ sign c ∷ ts) = select_rows rows (lits ts)
answer rows (t ∷ word w ∷ ts) = count_rows rows (lits ts)
answer rows _ = []

abbrev table_sqlite : Sqlite Files
table_sqlite = record {
  is_open = λ w h. true;
  open_file = λ w path. (w, 0, 0);
  close = λ w h. w;
  exec = λ w h text. (w, answer w.0 (scan text), 0);
  prepare = λ w h text. ((w.0, lits (scan text)), 0, 0);
  step = λ w compiled. ((w.0 ++ w.1 ∷ [], []), 101);
  finalize = λ w compiled. w;
  backup = λ w to from. w;
  errcode = λ w h. 0;
}

lits-value_tokens : (vs : List Bytes) → lits (value_tokens vs ++ sign b')' ∷ sign b';' ∷ []) ≡ vs
lits-value_tokens [] = refl
lits-value_tokens (v ∷ []) = refl
lits-value_tokens (v ∷ u ∷ us) = ap (◌∷◌ v) (lits-value_tokens (u ∷ us))

table_sqlite-Relational : Relational table_sqlite
table_sqlite-Relational = record {
  width = λ w h. 2;
  rows = λ w h. w.0;
  counts = λ w h text name rest o e. (w, 0, ap (λ ts. (w, answer w.0 ts, 0)) e, refl, refl, refl);
  selects = λ w h text name o e. (w, 0, ap (λ ts. (w, answer w.0 ts, 0)) e, refl, refl, refl);
  inserts = λ w h text values o n e. (
    (w.0, values),
    0,
    ap (λ ts. ((w.0, lits ts), 0, 0)) e ∙ ap (λ vs. ((w.0, vs), 0, 0)) (lits-value_tokens values),
    (w.0 ++ values ∷ [], []),
    refl,
    refl,
    refl,
    refl,
  );
}

-- One row, and a provider that has read it.
abbrev begun : State table_sqlite
begun = (
  record (create (bytes "/db")) {
    field_names = bytes "name" ∷ bytes "type" ∷ [];
    worker = some 1;
    fields_ready = finished true;
  },
  ((bytes "milk" ∷ bytes "food" ∷ []) ∷ [], []),
)
