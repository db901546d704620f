-- ===== src/Provider/Sqlite/Relational.antt =====
-- DataProvider/DBSQLite/src/DBSQLite.cpp over a sqlite3 that keeps a table: what `set` stores, and `get`
-- finds.
use reminder_suite.Prelude.{
  ℕ, true, false, Bool-cases, inl, inr, List, [], ◌∷◌, ◌++◌, append_assoc, append-nil, map, some,
  length, ◌≡◌, ◌≢◌, refl, ap, ◌∙◌, All, if◌then◌else◌, arith,
}
use reminder_suite.Prelude.Fault.{ok}
use reminder_suite.Text.{Bytes, bytes, Free, Free-append, equal, write_each}
use reminder_suite.Http.Reply.Decimal.{to_decimal}
use reminder_suite.Provider.Sqlite.{Sqlite}
use reminder_suite.Provider.Sqlite.Texts.{Row, append_cells, select_text, count_text, insert_text}
use reminder_suite.Provider.Sqlite.Statements.{listed, literal, literals, insert_text-statement}
use reminder_suite.Provider.Sqlite.Lexer.{Token, scan}
use reminder_suite.Provider.Sqlite.Reading.{statement_tokens, select_tokens, count_tokens}

-- The rows whose first value is this name.
abbrev pub named : Bytes → List (List Bytes) → List (List Bytes)
named name [] = []
named name ([] ∷ rows) = named name rows
named name ((v ∷ vs) ∷ rows) =
    let rest = named name rows in if equal v name then (v ∷ vs) ∷ rest else rest

abbrev pub cells : List Bytes → Row
cells = map some

-- The table `reminders` in the database of a handle, whose first column is `name`, and what SQL says
-- of the three kinds of statements. A text is run by its tokens; the first statement of it is run
-- whatever stands behind. The columns hold texts, with no constraint.
pub record Relational {W : Type 0} (lib : Sqlite W) : Type 0 where
  pub width : W → ℕ → ℕ
  pub rows : W → ℕ → List (List Bytes)
  pub counts :
      (w : W) (h : ℕ) (text name : Bytes) (rest : List Token)
      → lib.is_open w h ≡ true
      → scan text ≡ count_tokens name ++ rest
      → (w' : W) × (rc : ℕ) × (lib.exec w h text
          ≡ (w', (some (to_decimal (length (named name (rows w h)))) ∷ []) ∷ [], rc))
        × (lib.is_open w' h ≡ true)
        × (width w' h ≡ width w h)
        × (rows w' h ≡ rows w h)
  pub selects :
      (w : W) (h : ℕ) (text name : Bytes)
      → lib.is_open w h ≡ true
      → scan text ≡ select_tokens name
      → (w' : W) × (rc : ℕ) × (lib.exec w h text ≡ (w', map cells (named name (rows w h)), rc))
        × (lib.is_open w' h ≡ true)
        × (width w' h ≡ width w h)
        × (rows w' h ≡ rows w h)
  pub inserts :
      (w : W) (h : ℕ) (text : Bytes) (values : List Bytes)
      → lib.is_open w h ≡ true
      → length values ≡ width w h
      → scan text ≡ statement_tokens false [] values []
      → (w' : W) × (compiled : ℕ) × (lib.prepare w h text ≡ (w', 0, compiled))
        × (w'' : W) × (lib.step w' compiled ≡ (w'', 101))
        × (lib.is_open (lib.finalize w'' compiled) h ≡ true)
        × (width (lib.finalize w'' compiled) h ≡ width w h)
        × (rows (lib.finalize w'' compiled) h ≡ rows w h ++ values ∷ [])

pub named-append :
    (name : Bytes) (rs rs' : List (List Bytes))
    → named name (rs ++ rs') ≡ named name rs ++ named name rs'
named-append name [] rs' = refl
named-append name ([] ∷ rs) rs' = named-append name rs rs'
named-append name ((v ∷ vs) ∷ rs) rs' = elim (Bool-cases (equal v name)) [
  | inl y ↦ rw y (ap (◌∷◌ (v ∷ vs)) (named-append name rs rs'))
  | inr n ↦ rw n (named-append name rs rs')
]

pub append_cells-cells :
    (text : Bytes) (vs : List Bytes)
    → append_cells text (cells vs) ≡ ok (text ++ write_each (b':' ∷ []) vs)
unfolding append_cells write_each
append_cells-cells text [] = rw append-nil refl
append_cells-cells text (v ∷ vs) =
    append_cells-cells (text ++ v ++ b':' ∷ []) vs ∙ ap ok (simp append_assoc)

-- A text that can be stored as it is.
pub record IsStored (v : Bytes) : Type 0 where
  pub no_quote : Free b'\'' v
  pub no_nul : Free 0 v

pub select-Free : (name : Bytes) → Free 0 name → Free 0 (select_text name [])
unfolding equal
select-Free name h =
    Free-append 0 (bytes "select * from reminders where name='") (name ++ bytes "';") (omega arith)
      (Free-append 0 name (bytes "';") h (omega arith))

pub count-Free : (name : Bytes) → Free 0 name → Free 0 (count_text name)
count-Free name h =
    Free-append 0 (bytes "select count(name) from reminders where name='") (name ++ bytes "';'")
      (omega arith) (Free-append 0 name (bytes "';'") h (omega arith))

literal-Free : (v : Bytes) → Free 0 v → Free 0 (literal v)
literal-Free v h =
    Free-append 0 (bytes "'") (v ++ bytes "'") (omega arith)
      (Free-append 0 v (bytes "'") h (omega arith))

listed-Free : (vs : List Bytes) → All (Free 0) vs → Free 0 (listed (literals vs))
listed-Free [] h = tt
listed-Free (v ∷ []) h = literal-Free v h.0
listed-Free (v ∷ u ∷ us) h =
    Free-append 0 (literal v) (bytes ", " ++ listed (literals (u ∷ us))) (literal-Free v h.0) (
      Free-append 0 (bytes ", ") (listed (literals (u ∷ us))) (omega arith)
        (listed-Free (u ∷ us) h.1))

pub insert-Free : (vs : List Bytes) → vs ≢ [] → All (Free 0) vs → Free 0 (insert_text vs)
insert-Free vs ne h = rw (insert_text-statement [] vs [] ne) (
    Free-append 0 (bytes "insert into reminders values (") (listed (literals vs) ++ bytes ");")
      (omega arith)
      (Free-append 0 (listed (literals vs)) (bytes ");") (listed-Free vs h) (omega arith)))
