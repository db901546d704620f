-- ===== src/Provider/TextFile/Update.antt =====
-- DataProvider/DBTextFile/src/DBTextFile.cpp: the updates and the lookup by name.
use reminder_suite.Prelude.{
  true, false, List, [], ◌∷◌, ◌++◌, none, some, All, inl, inr, if◌then◌else◌, ◌≡◌, ◌≢◌, refl, arith,
}
use reminder_suite.Prelude.Fault.{ok}
use reminder_suite.Text.{Bytes, equal, equal_iff}
use reminder_suite.Provider.Entry.{Entry, from_line}
use reminder_suite.Provider.TextFile.{DbTextFile, Cursor, put_back, set_entry, is_some, erase}
use reminder_suite.Provider.TextFile.Lookup.{
  key, HasName, lookup, find_name-locate, locate-cases, Stands, lookup-append, lookup-Stands,
}

module _ {name : Bytes} {es : List Entry} {c : Cursor} (st : Stands name es c) where
  not_before_same : (k : Bytes) → equal name k ≡ true → lookup k c.before ≡ none
  not_before_same k e = rw (← (equal_iff name k).0 e) st.not_before

  -- An entry of the same name in the place of the first.
  pub lookup-put_back :
      (e : Entry) (k : Bytes)
      → key e ≡ name
      → lookup k (put_back c e) ≡ (if equal name k then some e else lookup k es)
  lookup-put_back e k same =
      rw (st.splits, lookup-append)
        (rw lookup-append (rw (same, st.entry_key) (ground (arith, not_before_same k))))

  -- Without the entry at the cursor another name is found as before.
  pub lookup-without :
      (k : Bytes) → equal name k ≡ false → lookup k (c.before ++ c.after) ≡ lookup k es
  lookup-without k ne = rw (st.splits, lookup-append) (rw lookup-append (rw (st.entry_key, ne)))

lookup-none_ne :
    (name k : Bytes) (es : List Entry)
    → lookup name es ≡ none
    → equal name k ≡ true
    → lookup k es ≡ none
lookup-none_ne name k es n e = rw (← (equal_iff name k).0 e) n

-- Where every entry has a name: after a `set` with a line that begins with the name, that name finds
-- the new entry, and every other name what it found before. The call returns true whether or not the
-- name was there.
pub lookup-set_entry :
    (db : DbTextFile) (name csv : Bytes)
    → All HasName db.entries
    → key (from_line csv) ≡ name
    → (db' : DbTextFile) × (set_entry db name csv ≡ ok (db', true))
      × ((k : Bytes)
          → lookup k db'.entries
            ≡ (if equal name k then some (from_line csv) else lookup k db.entries))
unfolding set_entry
lookup-set_entry db name csv h same =
    rw (find_name-locate name db.entries h) (elim (locate-cases name db.entries) [
      | inl (l, n) ↦ rw l (
        record db { entries = db.entries ++ from_line csv ∷ [] },
        refl,
        λ k. rw lookup-append (rw same (ground (arith, lookup-none_ne name k db.entries n))),
      )
      | inr (c, l, st) ↦ rw l (
        record db { entries = put_back c (from_line csv) },
        refl,
        λ k. lookup-put_back st (from_line csv) k same,
      )
    ])

-- Where every entry has a name, `erase` succeeds exactly when the name is found, and leaves every
-- other name as it was.
pub lookup-erase :
    (db : DbTextFile) (name : Bytes)
    → All HasName db.entries
    → (db' : DbTextFile) × (erase db name ≡ ok (db', is_some (lookup name db.entries)))
      × ((k : Bytes) → k ≢ name → lookup k db'.entries ≡ lookup k db.entries)
unfolding erase
lookup-erase db name h =
    rw (find_name-locate name db.entries h) (elim (locate-cases name db.entries) [
      | inl (l, n) ↦ rw (l, n) (db, refl, λ k ne. refl)
      | inr (c, l, st) ↦
          rw (l, lookup-Stands st)
            (
              record db { entries = c.before ++ c.after },
              refl,
              λ k ne. lookup-without st k (ground (arith, equal_iff name k)),
            )
    ])
