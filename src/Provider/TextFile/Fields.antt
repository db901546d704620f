-- ===== src/Provider/TextFile/Fields.antt =====
-- DataProvider/DBTextFile/src/DBTextFile.cpp: `set` of one field, against the lookup by name.
use reminder_suite.Prelude.{
  ℕ, zero, suc, ◌≤◌, Bool, true, false, List, [], ◌∷◌, Option, none, some, All, length, set, leb,
  ltb, inl, inr, Bool-cases, if◌then◌else◌, ◌≡◌, ◌≢◌, refl, sym, ◌∙◌, ap, arith,
}
use reminder_suite.Prelude.Fault.{ok}
use reminder_suite.Text.{Bytes, equal, equal_iff}
use reminder_suite.Provider.Entry.{Entry, set_value}
use reminder_suite.Provider.TextFile.{DbTextFile, Cursor, set_field, set_at, find_field}
use reminder_suite.Provider.TextFile.Lookup.{
  key, HasName, lookup, find_name-locate, locate-cases, Stands, lookup-Stands,
}
use reminder_suite.Provider.TextFile.Keys.{IsDistinct, IsDistinct-replace}
use reminder_suite.Provider.TextFile.Update.{lookup-put_back}

-- Whether there is a value to replace.
abbrev pub accepts : Option ℕ → Option Entry → Bool
accepts none o = false
accepts (some i) none = false
accepts (some i) (some e) = ltb i (length e.values)

-- The entry with that value replaced, if there is one.
abbrev pub replaced : Option ℕ → Bytes → Option Entry → Option Entry
replaced none value o = o
replaced (some i) value none = none
replaced (some i) value (some e) = some (record e { values = set e.values i value })

set-beyond : (vs : List Bytes) (i : ℕ) (v : Bytes) → length vs ≤ i → set vs i v ≡ vs
set-beyond [] i v h = refl
set-beyond (x ∷ xs) zero v h = absurd (omega arith)
set-beyond (x ∷ xs) (suc i) v h = ap (◌∷◌ x) (set-beyond xs i v (omega arith))

set_value_lem :
    (e : Entry) (i : ℕ) (value : Bytes)
    → set_value e i value ≡ (record e { values = set e.values i value }, ltb i (length e.values))
unfolding set_value
set_value_lem e i value = elim (Bool-cases (leb (length e.values) i)) [
  | inl out ↦
      let beyond : length e.values ≤ i = ground arith in
      let no : ltb i (length e.values) ≡ false = ground arith in
      rw (out, no, set-beyond e.values i value beyond) refl
  | inr n ↦ let yes : ltb i (length e.values) ≡ true = ground arith in rw (n, yes) refl
]

key-set :
    (e : Entry) (i : ℕ) (value : Bytes)
    → key (record e { values = set e.values (suc i) value }) ≡ key e
key-set e i value = first_set e.values
  where
    first_set :
        (vs : List Bytes)
        → key (record { values = set vs (suc i) value }) ≡ key (record { values = vs })
    first_set [] = refl
    first_set (v ∷ vs) = refl

module _ {name : Bytes} (db : DbTextFile) {c : Cursor} (st : Stands name db.entries c)
    (value : Bytes) where
  found :
      (k : Bytes)
      → lookup k db.entries ≡ (if equal name k then some c.entry else lookup k db.entries)
  found k = elim (Bool-cases (equal name k)) [
    | inl e ↦ rw (e, ← (equal_iff name k).0 e) (lookup-Stands st)
    | inr n ↦ rw n
  ]

  set_at_lem :
      (o : Option ℕ)
      → o ≢ some 0
      → ((set_at db c value o).1 ≡ accepts o (some c.entry))
        × ((k : Bytes)
            → lookup k (set_at db c value o).0.entries
              ≡ (if equal name k then replaced o value (some c.entry) else lookup k db.entries))
  set_at_lem none n = (refl, λ k. found k)
  set_at_lem (some zero) n = absurd (n refl)
  set_at_lem (some (suc i)) n =
      rw (set_value_lem c.entry (suc i) value)
        (refl, λ k. lookup-put_back st _ k (key-set c.entry i value ∙ st.entry_key))

set_at-IsDistinct :
    {name : Bytes} (db : DbTextFile) {c : Cursor}
    → Stands name db.entries c
    → (value : Bytes) (o : Option ℕ) → o ≢ some 0
    → IsDistinct db.entries
    → IsDistinct (set_at db c value o).0.entries
set_at-IsDistinct db st value none n d = d
set_at-IsDistinct db st value (some zero) n d = absurd (n refl)
set_at-IsDistinct db {c} st value (some (suc i)) n d =
    rw (set_value_lem c.entry (suc i) value)
      (IsDistinct-replace c.before c.entry _ c.after (key-set c.entry i value) (rw st.splits at d))

-- A `set` of a field but the first keeps the names distinct.
pub set_field-IsDistinct :
    (db : DbTextFile) (name field value : Bytes)
    → All HasName db.entries
    → IsDistinct db.entries
    → find_field field db.field_names ≢ some 0
    → (db' : DbTextFile) × (done : Bool) × (set_field db name field value ≡ ok (db', done))
      × IsDistinct db'.entries
unfolding set_field
set_field-IsDistinct db name field value h d later =
    rw (find_name-locate name db.entries h) (elim (locate-cases name db.entries) [
      | inl (l, n) ↦ rw l (db, _, refl, d)
      | inr (c, l, st) ↦
          rw l (_, _, refl, set_at-IsDistinct db st value (find_field field db.field_names) later d)
    ])

accepts-none : (o : Option ℕ) → accepts o none ≡ false
accepts-none none = refl
accepts-none (some i) = refl

replaced-none : (o : Option ℕ) (value : Bytes) → replaced o value none ≡ none
replaced-none none value = refl
replaced-none (some i) value = refl

missing :
    (name : Bytes) (es : List Entry)
    → lookup name es ≡ none
    → (value : Bytes) (o : Option ℕ) (k : Bytes)
    → lookup k es ≡ (if equal name k then replaced o value none else lookup k es)
missing name es n value o k = elim (Bool-cases (equal name k)) [
  | inl e ↦ rw (e, ← (equal_iff name k).0 e, n, replaced-none) refl
  | inr ne ↦ rw ne
]

-- Where every entry has a name, and for every field but the first: `set` of the field succeeds exactly
-- when an entry of the name is found and has a value there; then that name finds the entry with this
-- value replaced, and every other name, or every name where it fails, finds what it found before.
pub lookup-set_field :
    (db : DbTextFile) (name field value : Bytes)
    → All HasName db.entries
    → find_field field db.field_names ≢ some 0
    → (db' : DbTextFile) × (set_field db name field value
        ≡ ok (db', accepts (find_field field db.field_names) (lookup name db.entries)))
      × ((k : Bytes)
          → lookup k db'.entries ≡ (
              if equal name k
              then replaced (find_field field db.field_names) value (lookup name db.entries)
              else lookup k db.entries))
unfolding set_field
lookup-set_field db name field value h later =
    rw (find_name-locate name db.entries h) (elim (locate-cases name db.entries) [
      | inl (l, n) ↦
          rw (l, n)
            (
              db,
              ap (λ d. ok (db, d)) (sym (accepts-none (find_field field db.field_names))),
              λ k. missing name db.entries n value (find_field field db.field_names) k,
            )
      | inr (c, l, st) ↦
          let (b, f) = set_at_lem db st value (find_field field db.field_names) later in
          rw (l, lookup-Stands st)
            (
              (set_at db c value (find_field field db.field_names)).0,
              ap (λ d. ok ((set_at db c value (find_field field db.field_names)).0, d)) b,
              f,
            )
    ])
