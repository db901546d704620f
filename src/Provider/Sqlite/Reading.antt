-- ===== src/Provider/Sqlite/Reading.antt =====
-- DataProvider/DBSQLite/src/DBSQLite.cpp: what SQL reads in the statements that are built.
use reminder_suite.Prelude.{
  Bool, true, false, List, [], ◌∷◌, ◌++◌, append_assoc, ◌≡◌, ◌≢◌, refl, sym, ap, ◌∙◌, All,
}
use reminder_suite.Text.{Bytes, bytes, Free, equal}
use reminder_suite.Provider.Sqlite.{Sqlite}
use reminder_suite.Provider.Sqlite.Texts.{select_text, count_text, insert_text}
use reminder_suite.Provider.Sqlite.Statements.{
  listed, literal, literals, statement, insert_text-statement,
}
use reminder_suite.Provider.Sqlite.Lexer.{
  Token, word, lit, sign, unclosed, closing, IsLetter, scan_from, scan, scan-inside,
}

-- A value that may stand between quotes as it is.
abbrev pub IsPlain : Bytes → Type 0
IsPlain v = Free b'\'' v

-- A name that SQL reads as one word.
abbrev pub IsColumn : Bytes → Type 0
IsColumn f = (f ≢ []) × All IsLetter f

abbrev pub where_tokens : Bytes → List Token
where_tokens name =
    word (bytes "where") ∷ word (bytes "name") ∷ sign b'=' ∷ lit name ∷ sign b';' ∷ []

abbrev pub value_tokens : List Bytes → List Token
value_tokens [] = []
value_tokens (v ∷ []) = lit v ∷ []
value_tokens (v ∷ u ∷ us) = lit v ∷ sign b',' ∷ value_tokens (u ∷ us)

abbrev pub equation_tokens : List Bytes → List Bytes → List Token
equation_tokens [] vs = []
equation_tokens (f ∷ fs) [] = []
equation_tokens (f ∷ []) (v ∷ vs) = word f ∷ sign b'=' ∷ lit v ∷ []
equation_tokens (f ∷ g ∷ gs) (v ∷ vs) =
    word f ∷ sign b'=' ∷ lit v ∷ sign b',' ∷ equation_tokens (g ∷ gs) vs

-- An update of the rows of this name, or one new row.
abbrev pub statement_tokens : Bool → List Bytes → List Bytes → Bytes → List Token
statement_tokens true names values name =
    word (bytes "update")
    ∷ word (bytes "reminders")
    ∷ word (bytes "set")
    ∷ (equation_tokens names values ++ where_tokens name)
statement_tokens false names values name =
    word (bytes "insert")
    ∷ word (bytes "into")
    ∷ word (bytes "reminders")
    ∷ word (bytes "values")
    ∷ sign b'('
    ∷ (value_tokens values ++ sign b')' ∷ sign b';' ∷ [])

abbrev pub select_tokens : Bytes → List Token
select_tokens name =
    word (bytes "select")
    ∷ sign b'*'
    ∷ word (bytes "from")
    ∷ word (bytes "reminders")
    ∷ where_tokens name

abbrev pub count_tokens : Bytes → List Token
count_tokens name =
    word (bytes "select")
    ∷ word (bytes "count")
    ∷ sign b'('
    ∷ word (bytes "name")
    ∷ sign b')'
    ∷ word (bytes "from")
    ∷ word (bytes "reminders")
    ∷ where_tokens name

scan-literal : (v rest : Bytes) → IsPlain v → scan (literal v ++ rest) ≡ scan_from (closing v) rest
unfolding scan_from
scan-literal v rest h = rw append_assoc (scan-inside [] v (bytes "'" ++ rest) h)

closing-comma :
    (v rest : Bytes) → scan_from (closing v) (bytes ", " ++ rest) ≡ lit v ∷ sign b',' ∷ scan rest
unfolding scan_from
closing-comma v rest = refl

closing-paren :
    (v : Bytes) → scan_from (closing v) (bytes ");") ≡ lit v ∷ sign b')' ∷ sign b';' ∷ []
unfolding scan_from
closing-paren v = refl

closing-semicolon :
    (v rest : Bytes) → scan_from (closing v) (b';' ∷ rest) ≡ lit v ∷ sign b';' ∷ scan rest
unfolding scan_from
closing-semicolon v rest = refl

scan-values :
    (v : Bytes) (vs : List Bytes)
    → All IsPlain (v ∷ vs)
    → scan (listed (literals (v ∷ vs)) ++ bytes ");")
      ≡ value_tokens (v ∷ vs) ++ sign b')' ∷ sign b';' ∷ []
scan-values v [] h = scan-literal v (bytes ");") h.0 ∙ closing-paren v
scan-values v (u ∷ us) h =
    ap scan (append_assoc (literal v) (bytes ", " ++ listed (literals (u ∷ us))) (bytes ");"))
    ∙ scan-literal v (bytes ", " ++ (listed (literals (u ∷ us)) ++ bytes ");")) h.0
    ∙ closing-comma v (listed (literals (u ∷ us)) ++ bytes ");")
    ∙ ap (λ ts. lit v ∷ sign b',' ∷ ts) (scan-values u us h.1)

scan-where_start :
    (rest : Bytes)
    → scan (bytes "where name=" ++ rest)
      ≡ word (bytes "where") ∷ word (bytes "name") ∷ sign b'=' ∷ scan rest
unfolding scan_from
scan-where_start rest = refl

-- A condition on the name.
scan-where :
    (name rest : Bytes)
    → IsPlain name
    → scan (bytes "where name=" ++ (literal name ++ (b';' ∷ rest))) ≡ where_tokens name ++ scan rest
scan-where name rest h =
    scan-where_start (literal name ++ (b';' ∷ rest))
    ∙ ap (λ ts. word (bytes "where") ∷ word (bytes "name") ∷ sign b'=' ∷ ts)
        (scan-literal name (b';' ∷ rest) h ∙ closing-semicolon name rest)

scan-where_end :
    (name : Bytes)
    → IsPlain name
    → scan (bytes "where name=" ++ (literal name ++ bytes ";")) ≡ where_tokens name
unfolding scan_from
scan-where_end name h = scan-where name [] h

insert_start :
    (rest : Bytes)
    → scan (bytes "insert into reminders values (" ++ rest)
      ≡ word (bytes "insert")
        ∷ word (bytes "into")
        ∷ word (bytes "reminders")
        ∷ word (bytes "values")
        ∷ sign b'('
        ∷ scan rest
unfolding scan_from
insert_start rest = refl

insert_scan :
    (v : Bytes) (vs : List Bytes)
    → All IsPlain (v ∷ vs)
    → scan (statement false [] (v ∷ vs) []) ≡ statement_tokens false [] (v ∷ vs) []
insert_scan v vs h =
    insert_start _
    ∙ ap
        (λ ts.
          word (bytes "insert")
          ∷ word (bytes "into")
          ∷ word (bytes "reminders")
          ∷ word (bytes "values")
          ∷ sign b'('
          ∷ ts)
        (scan-values v vs h)

select_start :
    (rest : Bytes)
    → scan (bytes "select * from reminders " ++ rest)
      ≡ word (bytes "select")
        ∷ sign b'*'
        ∷ word (bytes "from")
        ∷ word (bytes "reminders")
        ∷ scan rest
unfolding scan_from
select_start rest = refl

count_start :
    (rest : Bytes)
    → scan (bytes "select count(name) from reminders " ++ rest)
      ≡ word (bytes "select")
        ∷ word (bytes "count")
        ∷ sign b'('
        ∷ word (bytes "name")
        ∷ sign b')'
        ∷ word (bytes "from")
        ∷ word (bytes "reminders")
        ∷ scan rest
unfolding scan_from
count_start rest = refl

pub scan-select : (name : Bytes) → IsPlain name → scan (select_text name []) ≡ select_tokens name
unfolding equal
scan-select name h =
    ap (λ t. scan (bytes "select * from reminders " ++ (bytes "where name=" ++ (b'\'' ∷ t))))
      (sym (append_assoc name (bytes "'") (bytes ";")))
    ∙ select_start (bytes "where name=" ++ (literal name ++ bytes ";"))
    ∙ ap
        (λ ts.
          word (bytes "select") ∷ sign b'*' ∷ word (bytes "from") ∷ word (bytes "reminders") ∷ ts)
        (scan-where_end name h)

-- The quote at the end of the text begins another statement.
pub scan-count :
    (name : Bytes) → IsPlain name → scan (count_text name) ≡ count_tokens name ++ unclosed ∷ []
unfolding scan_from
scan-count name h =
    ap
      (λ t.
        scan (bytes "select count(name) from reminders " ++ (bytes "where name=" ++ (b'\'' ∷ t))))
      (sym (append_assoc name (bytes "'") (bytes ";'")))
    ∙ ap
        (λ ts.
          word (bytes "select")
          ∷ word (bytes "count")
          ∷ sign b'('
          ∷ word (bytes "name")
          ∷ sign b')'
          ∷ word (bytes "from")
          ∷ word (bytes "reminders")
          ∷ ts)
        (scan-where name (bytes "'") h)

pub scan-insert :
    (values : List Bytes)
    → values ≢ []
    → All IsPlain values
    → scan (insert_text values) ≡ statement_tokens false [] values []
scan-insert [] ne h = absurd (ne refl)
scan-insert (v ∷ vs) ne h = ap scan (insert_text-statement [] (v ∷ vs) [] ne) ∙ insert_scan v vs h
