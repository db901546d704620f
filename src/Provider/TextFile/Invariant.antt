-- ===== src/Provider/TextFile/Invariant.antt =====
-- DataProvider/DBTextFile/src/DBTextFile.cpp: predicates on every entry, and the updates.
use mathlib.Core.Path.{subst}
use reminder_suite.Prelude.{
  ℕ, Bool, true, List, [], ◌∷◌, ◌++◌, Option, some, All, All-append, inl, inr, length, ◌≤◌, ◌≡◌,
  refl, arith, Bool-cases, Option-cases, zero, suc, ◌<◌, get_elem?, none,
}
use reminder_suite.Prelude.Fault.{ok}
use reminder_suite.Text.{Bytes, equal}
use reminder_suite.Provider.Entry.{Entry, from_line, set_value, get_value}
use reminder_suite.Provider.TextFile.{
  DbTextFile, Cursor, set_entry, set_field, set_at, find_field, erase, get, put_back,
}
use reminder_suite.Provider.TextFile.Lookup.{
  key, HasName, lookup, find_name-locate, locate-cases, Stands, get-lookup, answer,
}

some_inj : (a b : Entry) → some a ≡ some b → a ≡ b
some_inj a b h = cc

-- The same table but for the entries.
pub record SameTable (a b : DbTextFile) : Type 0 where
  pub path : b.db_path ≡ a.db_path
  pub names : b.field_names ≡ a.field_names

module _ (P : Entry → Type 0) where
  All-before : (xs ys : List Entry) → All P (xs ++ ys) → All P xs
  All-before [] ys h = tt
  All-before (x ∷ xs) ys h = (h.0, All-before xs ys h.1)

  All-behind : (xs ys : List Entry) → All P (xs ++ ys) → All P ys
  All-behind [] ys h = h
  All-behind (x ∷ xs) ys h = All-behind xs ys h.1

  module _ {name : Bytes} {es : List Entry} {c : Cursor} (st : Stands name es c)
      (h : All P es) where
    All-entry : P c.entry
    All-entry = (All-behind c.before (c.entry ∷ c.after) (rw st.splits at h)).0

    All-put_back : (e : Entry) → P e → All P (put_back c e)
    All-put_back e p =
        All-append P c.before (e ∷ c.after)
          (All-before c.before (c.entry ∷ c.after) (rw st.splits at h))
          (p, (All-behind c.before (c.entry ∷ c.after) (rw st.splits at h)).1)

    All-erased : All P (c.before ++ c.after)
    All-erased =
        All-append P c.before c.after (All-before c.before (c.entry ∷ c.after) (rw st.splits at h))
          (All-behind c.before (c.entry ∷ c.after) (rw st.splits at h)).1

  module _ (db : DbTextFile) (named : All HasName db.entries) (h : All P db.entries) where
    pub set_entry-All :
        (name csv : Bytes)
        → P (from_line csv)
        → (db' : DbTextFile) × (set_entry db name csv ≡ ok (db', true))
          × All P db'.entries
          × SameTable db db'
    unfolding set_entry
    set_entry-All name csv p =
        rw (find_name-locate name db.entries named) (elim (locate-cases name db.entries) [
          | inl (l, n) ↦ rw l (
            record db { entries = db.entries ++ from_line csv ∷ [] },
            refl,
            All-append P db.entries (from_line csv ∷ []) h (p, tt),
            record { path = refl; names = refl },
          )
          | inr (c, l, st) ↦ rw l (
            record db { entries = put_back c (from_line csv) },
            refl,
            All-put_back st h (from_line csv) p,
            record { path = refl; names = refl },
          )
        ])

    pub erase-All :
        (name : Bytes)
        → (db' : DbTextFile) × (done : Bool) × (erase db name ≡ ok (db', done))
          × All P db'.entries
          × SameTable db db'
    unfolding erase
    erase-All name =
        rw (find_name-locate name db.entries named) (elim (locate-cases name db.entries) [
          | inl (l, n) ↦ rw l (db, _, refl, h, record { path = refl; names = refl })
          | inr (c, l, st) ↦ rw l (
            record db { entries = c.before ++ c.after },
            _,
            refl,
            All-erased st h,
            record { path = refl; names = refl },
          )
        ])

    set_at-All :
        {name : Bytes} (c : Cursor) (v : Bytes) (o : Option ℕ)
        → Stands name db.entries c
        → ((e : Entry) (i : ℕ) → P e → P (set_value e i v).0)
        → (db' : DbTextFile) × (done : Bool) × (set_at db c v o ≡ (db', done))
          × All P db'.entries
          × SameTable db db'
    set_at-All c v none st keep = (db, _, refl, h, record { path = refl; names = refl })
    set_at-All c v (some i) st keep = (
      record db { entries = put_back c (set_value c.entry i v).0 },
      _,
      refl,
      All-put_back st h _ (keep c.entry i (All-entry st h)),
      record { path = refl; names = refl },
    )

    pub set_field-All :
        (name field v : Bytes)
        → ((e : Entry) (i : ℕ) → P e → P (set_value e i v).0)
        → (db' : DbTextFile) × (done : Bool) × (set_field db name field v ≡ ok (db', done))
          × All P db'.entries
          × SameTable db db'
    unfolding set_field
    set_field-All name field v keep =
        rw (find_name-locate name db.entries named) (elim (locate-cases name db.entries) [
          | inl (l, n) ↦ rw l (db, _, refl, h, record { path = refl; names = refl })
          | inr (c, l, st) ↦
              let (db', done, e, a, same) =
                set_at-All c v (find_field field db.field_names) st keep in
              rw l (db', done, rw e, a, same)
        ])

  pub All-lookup :
      (name : Bytes) (es : List Entry) {e : Entry} → All P es → lookup name es ≡ some e → P e
  All-lookup name [] h l = cc
  All-lookup name (x ∷ xs) {e} h l = elim (Bool-cases (equal (key x) name)) [
    | inl same ↦ subst P (some_inj x e (rw same at l)) h.0
    | inr ne ↦ All-lookup name xs h.1 (rw ne at l)
  ]

-- Every entry has a value for every field of the table.
abbrev pub IsWide : DbTextFile → Type 0
IsWide db = All (λ e. length db.field_names ≤ length e.values) db.entries

find_field-lt :
    (field : Bytes) (fs : List Bytes) (i : ℕ) → find_field field fs ≡ some i → i < length fs
unfolding find_field
find_field-lt field [] i h = cc
find_field-lt field (f ∷ fs) i h = elim (Bool-cases (equal f field)) [
  | inl same ↦ ground arith
  | inr ne ↦ elim (Option-cases (find_field field fs)) [
    | inl n ↦ cc (rw (ne, n) at h)
    | inr (j, e) ↦ ground (arith, find_field-lt field fs j e)
  ]
]

get_elem?-some : (vs : List Bytes) (i : ℕ) → i < length vs → (v : Bytes) × (get_elem? vs i ≡ some v)
get_elem?-some [] i h = elim h [ ]
get_elem?-some (v ∷ vs) zero h = (v, refl)
get_elem?-some (v ∷ vs) (suc i) h = get_elem?-some vs i (omega arith)

answer-total :
    (names : List Bytes) (field : Bytes) (o : Option Entry)
    → ((e : Entry) → o ≡ some e → length names ≤ length e.values)
    → (r : Bytes) × (answer names field o ≡ ok r)
unfolding get_value
answer-total names field none h = ([], refl)
answer-total names field (some e) h = elim (Bool-cases (equal field [])) [
  | inl whole ↦ rw whole (_, refl)
  | inr one ↦ rw one (elim (Option-cases (find_field field names)) [
    | inl n ↦ rw n (_, refl)
    | inr (i, f) ↦
        let (v, g) =
          get_elem?-some e.values i (omega (arith, find_field-lt field names i f, h e refl)) in
        rw (f, g) (v, refl)
  ])
]

-- Where every entry has a name and a value for every field, `get` returns a text.
pub get-total :
    (db : DbTextFile) (name field : Bytes)
    → All HasName db.entries
    → IsWide db
    → (r : Bytes) × (get db name field ≡ ok r)
get-total db name field named wide = rw (get-lookup db name field named) (
    answer-total db.field_names field (lookup name db.entries)
      (λ e l. All-lookup (λ x. length db.field_names ≤ length x.values) name db.entries wide l))
