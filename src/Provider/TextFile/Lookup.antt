-- ===== src/Provider/TextFile/Lookup.antt =====
-- DataProvider/DBTextFile/src/DBTextFile.cpp: `find_if` on the names against a plain lookup by key,
-- and what `get` answers.
use mathlib.Core.Option
use reminder_suite.Prelude.{
  false, List, [], ◌∷◌, ◌++◌, Option, none, some, All, Bool-cases, ◌⊎◌, inl, inr, if◌then◌else◌,
  ◌≡◌, ◌≢◌, refl, ap, arith,
}
use reminder_suite.Prelude.Fault.{Result, ok}
use reminder_suite.Text.{Bytes, equal, equal_iff}
use reminder_suite.Provider.Entry.{Entry, get_value, as_string}
use reminder_suite.Provider.TextFile.{
  DbTextFile, Cursor, push_before, find_name, find_field, get_field, get,
}

abbrev first_of_values : List Bytes → Bytes
first_of_values [] = []
first_of_values (v ∷ vs) = v

-- The name of an entry: its first value.
abbrev pub key : Entry → Bytes
key e = first_of_values e.values

abbrev pub HasName : Entry → Type 0
HasName e = e.values ≢ []

-- The first entry of that name.
abbrev pub lookup : Bytes → List Entry → Option Entry
lookup name [] = none
lookup name (e ∷ es) = if equal (key e) name then some e else lookup name es

abbrev pub locate : Bytes → List Entry → Option Cursor
locate name [] = none
locate name (e ∷ es) =
    if equal (key e) name
    then some (record { before = []; entry = e; after = es })
    else Option.map (push_before e) (locate name es)

get_value-key :
    (vs : List Bytes) → vs ≢ [] → get_value (record { values = vs }) 0 ≡ ok (first_of_values vs)
unfolding get_value
get_value-key [] ne = absurd (ne refl)
get_value-key (v ∷ vs) ne = refl

-- No access is out of bounds where every entry has a name.
pub find_name-locate :
    (name : Bytes) (es : List Entry) → All HasName es → find_name name es ≡ ok (locate name es)
unfolding find_name
find_name-locate name [] h = refl
find_name-locate name (e ∷ es) h =
    rw (get_value-key e.values h.0, find_name-locate name es h.1) (ground arith)

-- Where a cursor stands.
pub record Stands (name : Bytes) (es : List Entry) (c : Cursor) : Type 0 where
  pub splits : es ≡ c.before ++ (c.entry ∷ c.after)
  pub entry_key : key c.entry ≡ name
  pub not_before : lookup name c.before ≡ none

Stands-push :
    (name : Bytes) (e : Entry) (es : List Entry) (c : Cursor)
    → equal (key e) name ≡ false
    → Stands name es c
    → Stands name (e ∷ es) (push_before e c)
Stands-push name e es c ne st = record {
  splits = ap (◌∷◌ e) st.splits;
  entry_key = st.entry_key;
  not_before = rw ne st.not_before;
}

-- Either no entry has the name, or the cursor stands at the first that has it.
pub locate-cases :
    (name : Bytes) (es : List Entry)
    → ((locate name es ≡ none) × (lookup name es ≡ none))
      ⊎ ((c : Cursor) × (locate name es ≡ some c) × Stands name es c)
locate-cases name [] = inl (refl, refl)
locate-cases name (e ∷ es) = elim (Bool-cases (equal (key e) name)) [
  | inl same ↦ rw same (
      inr (
        record { before = []; entry = e; after = es },
        refl,
        record { splits = refl; entry_key = (equal_iff (key e) name).0 same; not_before = refl },
      ))
  | inr ne ↦ rw ne (elim (locate-cases name es) [
    | inl (l, n) ↦ inl (ap (Option.map (push_before e)) l, n)
    | inr (c, l, st) ↦
        inr (push_before e c, ap (Option.map (push_before e)) l, Stands-push name e es c ne st)
  ])
]

abbrev or_else : Option Entry → Option Entry → Option Entry
or_else none o = o
or_else (some e) o = some e

pub lookup-append :
    (k : Bytes) (xs ys : List Entry) → lookup k (xs ++ ys) ≡ or_else (lookup k xs) (lookup k ys)
lookup-append k [] ys = refl
lookup-append k (x ∷ xs) ys = ground (arith, lookup-append k xs ys)

-- The first entry of the name is the one at the cursor.
pub lookup-Stands :
    {name : Bytes} {es : List Entry} {c : Cursor} → Stands name es c → lookup name es ≡ some c.entry
lookup-Stands {name} {es} {c} st =
    rw (st.splits, lookup-append, st.not_before, (equal_iff (key c.entry) name).1 st.entry_key)

-- What `get` answers about the entry found.
abbrev pub answer : List Bytes → Bytes → Option Entry → Result Bytes
answer names field none = ok []
answer names field (some e) =
    if equal field [] then ok (as_string e) else get_field e (find_field field names)

pub get-lookup :
    (db : DbTextFile) (name field : Bytes)
    → All HasName db.entries
    → get db name field ≡ answer db.field_names field (lookup name db.entries)
unfolding get
get-lookup db name field h =
    rw (find_name-locate name db.entries h) (elim (locate-cases name db.entries) [
      | inl (l, n) ↦ rw (l, n)
      | inr (c, l, st) ↦ rw (l, lookup-Stands st)
    ])
