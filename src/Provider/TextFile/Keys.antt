-- ===== src/Provider/TextFile/Keys.antt =====
-- DataProvider/DBTextFile/src/DBTextFile.cpp: tables with no two entries of the same name.
use reminder_suite.Prelude.{
  Bool, true, Option, some, if◌then◌else◌, List, [], ◌∷◌, ◌++◌, none, All, inl, inr, ◌≡◌, refl, sym,
  ◌∙◌, arith,
}
use reminder_suite.Prelude.Fault.{ok}
use reminder_suite.Text.{Bytes, equal, equal_iff}
use reminder_suite.Provider.Entry.{Entry, from_line}
use reminder_suite.Provider.TextFile.{DbTextFile, put_back, set_entry, is_some, erase}
use reminder_suite.Provider.TextFile.Lookup.{
  key, HasName, lookup, find_name-locate, locate-cases, lookup-append, lookup-Stands,
}

abbrev pub IsDistinct : List Entry → Type 0
IsDistinct [] = Unit
IsDistinct (e ∷ es) = (lookup (key e) es ≡ none) × IsDistinct es

IsDistinct-append_last :
    (es : List Entry) (e : Entry)
    → IsDistinct es
    → lookup (key e) es ≡ none
    → IsDistinct (es ++ e ∷ [])
IsDistinct-append_last [] e d n = (refl, tt)
IsDistinct-append_last (x ∷ xs) e d n = (
  rw lookup-append (ground (arith, equal_iff (key x) (key e), equal_iff (key e) (key x))),
  IsDistinct-append_last xs e d.1 (ground arith),
)

if_none :
    (b : Bool) (e e' : Entry) (o : Option Entry)
    → (if b then some e else o) ≡ none
    → (if b then some e' else o) ≡ none
if_none b e e' o h = ground arith

-- An entry of the same name in the place of one.
lookup-replace :
    (k : Bytes) (xs : List Entry) (e e' : Entry) (ys : List Entry)
    → key e' ≡ key e
    → lookup k (xs ++ (e ∷ ys)) ≡ none
    → lookup k (xs ++ (e' ∷ ys)) ≡ none
lookup-replace k [] e e' ys same h = rw same (if_none (equal (key e) k) e e' (lookup k ys) h)
lookup-replace k (x ∷ xs) e e' ys same h = ground (arith, lookup-replace k xs e e' ys same)

pub IsDistinct-replace :
    (xs : List Entry) (e e' : Entry) (ys : List Entry)
    → key e' ≡ key e
    → IsDistinct (xs ++ (e ∷ ys))
    → IsDistinct (xs ++ (e' ∷ ys))
IsDistinct-replace [] e e' ys same d = (rw same d.0, d.1)
IsDistinct-replace (x ∷ xs) e e' ys same d =
    (lookup-replace (key x) xs e e' ys same d.0, IsDistinct-replace xs e e' ys same d.1)

lookup-remove :
    (k : Bytes) (xs : List Entry) (e : Entry) (ys : List Entry)
    → lookup k (xs ++ (e ∷ ys)) ≡ none
    → lookup k (xs ++ ys) ≡ none
lookup-remove k [] e ys h = ground arith
lookup-remove k (x ∷ xs) e ys h = ground (arith, lookup-remove k xs e ys)

-- Without the entry in the middle the rest is distinct, and holds no entry of its name.
IsDistinct-remove :
    (xs : List Entry) (e : Entry) (ys : List Entry)
    → IsDistinct (xs ++ (e ∷ ys))
    → lookup (key e) xs ≡ none
    → IsDistinct (xs ++ ys) × (lookup (key e) (xs ++ ys) ≡ none)
IsDistinct-remove [] e ys d n = (d.1, d.0)
IsDistinct-remove (x ∷ xs) e ys d n =
    let rest = IsDistinct-remove xs e ys d.1 (ground arith) in
    ((lookup-remove (key x) xs e ys d.0, rest.0), ground arith)

-- Where every entry has a name and the names are distinct, a `set` with a line that begins with the
-- name returns true and keeps the names distinct.
pub set_entry-IsDistinct :
    (db : DbTextFile) (name csv : Bytes)
    → All HasName db.entries
    → IsDistinct db.entries
    → key (from_line csv) ≡ name
    → (db' : DbTextFile) × (set_entry db name csv ≡ ok (db', true)) × IsDistinct db'.entries
unfolding set_entry
set_entry-IsDistinct db name csv h d same =
    rw (find_name-locate name db.entries h) (elim (locate-cases name db.entries) [
      | inl (l, n) ↦ rw l (
        record db { entries = db.entries ++ from_line csv ∷ [] },
        refl,
        IsDistinct-append_last db.entries (from_line csv) d (rw same n),
      )
      | inr (c, l, st) ↦ rw l (
        record db { entries = put_back c (from_line csv) },
        refl,
        IsDistinct-replace c.before c.entry (from_line csv) c.after (same ∙ sym st.entry_key)
            (rw st.splits at d),
      )
    ])

-- Where every entry has a name and the names are distinct, an `erase` succeeds exactly when the name
-- is found, keeps the names distinct and leaves no entry of the name.
pub erase-IsDistinct :
    (db : DbTextFile) (name : Bytes)
    → All HasName db.entries
    → IsDistinct db.entries
    → (db' : DbTextFile) × (erase db name ≡ ok (db', is_some (lookup name db.entries)))
      × IsDistinct db'.entries
      × (lookup name db'.entries ≡ none)
unfolding erase
erase-IsDistinct db name h d =
    rw (find_name-locate name db.entries h) (elim (locate-cases name db.entries) [
      | inl (l, n) ↦ rw (l, n) (db, refl, d, n)
      | inr (c, l, st) ↦
          let (rest, gone) =
            IsDistinct-remove c.before c.entry c.after (rw st.splits at d)
              (rw st.entry_key st.not_before) in
          rw (l, lookup-Stands st)
            (record db { entries = c.before ++ c.after }, refl, rest, rw st.entry_key at gone)
    ])
