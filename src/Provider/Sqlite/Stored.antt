-- ===== src/Provider/Sqlite/Stored.antt =====
-- DataProvider/DBSQLite/src/DBSQLite.cpp: a row that `set` adds is what `get` finds.
use reminder_suite.Prelude.{
  ℕ, true, false, not, ◌&&◌, ◌==◌, List, [], ◌∷◌, ◌++◌, some, length, ◌≡◌, ◌≢◌, refl, sym, ap, ◌∙◌,
  All, arith,
}
use reminder_suite.Prelude.Fault.{ok}
use reminder_suite.Text.{Bytes, Free, c_str-Free, equal, equal_refl, tokens, write_each}
use reminder_suite.Http.Reply.Decimal.{to_decimal}
use reminder_suite.Provider.Sqlite.{
  Sqlite, State, Task, absent, running, finished, set_when, get, already_exists, run_set,
  counted_set, set_entry,
}
use reminder_suite.Provider.Sqlite.Texts.{
  append_rows, append_firsts, select_text, count_text, insert_text,
}
use reminder_suite.Provider.Sqlite.Reading.{IsPlain, scan-select, scan-count, scan-insert}
use reminder_suite.Provider.Sqlite.Relational.{
  Relational, named, named-append, append_cells-cells, IsStored, select-Free, count-Free,
  insert-Free,
}

module _ {W : Type 0} (lib : Sqlite W) (sql : Relational lib) where
  open sql use {width, rows, counts, selects, inserts}

  -- The worker is a handle that is open, and the fields are known, as many as the columns.
  pub record Serves (s : State lib) (h : ℕ) : Type 0 where
    pub worker : s.0.worker ≡ some h
    pub is_open : lib.is_open s.1 h ≡ true
    pub known : s.0.fields_ready ≡ finished true
    pub some_field : s.0.field_names ≢ []
    pub counted : length s.0.field_names ≡ width s.1 h

  already_exists-new :
      (s : State lib) (h : ℕ) (name : Bytes)
      → Serves s h
      → IsStored name
      → named name (rows s.1 h) ≡ []
      → (w : W) × (already_exists lib s name ≡ ok ((s.0, w), false))
        × (lib.is_open w h ≡ true)
        × (width w h ≡ width s.1 h)
        × (rows w h ≡ rows s.1 h)
  unfolding already_exists append_firsts equal to_decimal
  already_exists-new s h name v st new =
      let (w, rc, e, o, n, r) =
        counts s.1 h (count_text name) name _ v.is_open (scan-count name st.no_quote) in
      (
        w,
        rw (v.worker, v.is_open, c_str-Free (count_text name) (count-Free name st.no_nul), e, new),
        o,
        n,
        r,
      )

  get_named :
      (s : State lib) (h : ℕ) (name : Bytes) (row : List Bytes)
      → Serves s h
      → IsStored name
      → named name (rows s.1 h) ≡ row ∷ []
      → (w : W) × (get lib s name [] ≡ ok ((s.0, w), write_each (b':' ∷ []) row))
        × (rows w h ≡ rows s.1 h)
  unfolding get append_rows
  get_named s h name row v st found =
      let (w, rc, e, o, n, r) =
        selects s.1 h (select_text name []) name v.is_open (scan-select name st.no_quote) in
      (
        w,
        rw (
          v.worker,
          v.is_open,
          c_str-Free (select_text name []) (select-Free name st.no_nul),
          e,
          found,
          append_cells-cells [] row,
        ),
        r,
      )

  run_set-new :
      (s : State lib) (h : ℕ) (name : Bytes) (values : List Bytes)
      → Serves s h
      → IsStored name
      → named name (rows s.1 h) ≡ []
      → values ≢ []
      → length values ≡ width s.1 h
      → All IsPlain values
      → All (Free 0) values
      → (w : W) × (run_set lib s name values ≡ ok ((s.0, w), true))
        × (lib.is_open w h ≡ true)
        × (width w h ≡ width s.1 h)
        × (rows w h ≡ rows s.1 h ++ values ∷ [])
  run_set-new s h name values v st new ne same plain no_nul =
      let (w, e, o, n, r) = already_exists-new s h name v st new in
      let (w', compiled, prep, w'', st', o', n', r') =
        inserts w h (insert_text values) values o (same ∙ sym n) (scan-insert values ne plain) in
      (
        lib.finalize w'' compiled,
        rw (
          e,
          v.worker,
          o,
          c_str-Free (insert_text values) (insert-Free values ne no_nul),
          prep,
          st',
        ),
        o',
        n' ∙ n,
        r' ∙ ap (λ rs. rs ++ values ∷ []) r,
      )

  counted_same :
      (names values : List Bytes)
      → length names ≡ length values
      → (not (length names == 0) && not (length names == length values)) ≡ false
  counted_same names values e = ground arith

  counted_set-same :
      (s : State lib) (name : Bytes) (values : List Bytes)
      → length s.0.field_names ≡ length values
      → counted_set lib s name values ≡ run_set lib s name values
  counted_set-same s name values e = rw (counted_same s.0.field_names values e) refl

  set_when-known :
      (s : State lib) (t : Task) (name csv : Bytes)
      → t ≡ finished true
      → set_when lib s t name csv ≡ counted_set lib s name (tokens b':' csv)
  set_when-known s absent name csv e = refl
  set_when-known s running name csv e = cc
  set_when-known s (finished b) name csv e = refl

  -- A row under a new name is added by `set`, and found by `get`.
  pub set_entry-get :
      (s : State lib) (h : ℕ) (name csv : Bytes) (vs : List Bytes)
      → Serves s h
      → IsStored name
      → named name (rows s.1 h) ≡ []
      → tokens b':' csv ≡ name ∷ vs
      → length (name ∷ vs) ≡ width s.1 h
      → All IsPlain (name ∷ vs)
      → All (Free 0) (name ∷ vs)
      → (t u : State lib) × (set_entry lib s name csv ≡ ok (t, true))
        × (rows t.1 h ≡ rows s.1 h ++ (name ∷ vs) ∷ [])
        × (get lib t name [] ≡ ok (u, write_each (b':' ∷ []) (name ∷ vs)))
        × (rows u.1 h ≡ rows t.1 h)
  unfolding set_entry
  set_entry-get s h name csv vs v st new split same plain no_nul =
      let (w, e, o, n, r) = run_set-new s h name (name ∷ vs) v st new (λ x. cc) same plain no_nul in
      let serves : Serves (s.0, w) h = record {
        worker = v.worker;
        is_open = o;
        known = v.known;
        some_field = v.some_field;
        counted = v.counted ∙ sym n;
      } in
      let found : named name (rows w h) ≡ (name ∷ vs) ∷ [] =
        ap (named name) r
        ∙ named-append name (rows s.1 h) ((name ∷ vs) ∷ [])
        ∙ rw (new, equal_refl name) in
      let (w', g, r') = get_named (s.0, w) h name (name ∷ vs) serves st found in
      (
        (s.0, w),
        (s.0, w'),
        set_when-known s s.0.fields_ready name csv v.known
            ∙ ap (counted_set lib s name) split
            ∙ counted_set-same s name (name ∷ vs) (v.counted ∙ sym same)
            ∙ e,
        r,
        g,
        r',
      )
