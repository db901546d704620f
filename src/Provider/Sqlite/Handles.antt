-- ===== src/Provider/Sqlite/Handles.antt =====
-- DataProvider/DBSQLite/src/DBSQLite.cpp: the handle of the database file after `read`.
use reminder_suite.Prelude.{
  ℕ, Bool, true, false, not, ◌&&◌, ◌||◌, List, [], ◌∷◌, Option, none, some, length, ◌==◌,
  Bool-cases, inl, inr, ◌⊎◌, ◌≡◌, refl, ◌∙◌,
}
use reminder_suite.Prelude.Fault.{Result, ok, err, undefined, ◌>>=◌, Holds, bind-Holds, then-Holds}
use reminder_suite.Text.{Bytes, tokens, c_str}
use reminder_suite.Provider.Sqlite.{
  Sqlite, DbSqlite, Task, absent, running, finished, State, on_open, release, open_db, get_fields,
  fields_text, wait_fields, fields, get_all, get, already_exists, set_sql, stepped, prepared,
  run_set, counted_set, set_when, set_entry, copied, opened_memory, read_opened, read, save,
}
use reminder_suite.Provider.Sqlite.Texts.{append_rows, row_lines, append_firsts, push_seconds}

-- What the documentation of sqlite3 says of handles: opening makes one open and no other, closing
-- makes one closed and opens none, and all other calls leave the open ones as they are.
pub record Documented {W : Type 0} (lib : Sqlite W) : Type 0 where
  pub open_others :
      (w : W) (path : Bytes) (h : ℕ)
      → lib.is_open (lib.open_file w path).0 h ≡ true
      → (lib.is_open w h ≡ true) ⊎ (h ≡ (lib.open_file w path).2)
  pub closed : (w : W) (h : ℕ) → lib.is_open (lib.close w h) h ≡ false
  pub exec_same :
      (w : W) (k : ℕ) (sql : Bytes) (h : ℕ) → lib.is_open (lib.exec w k sql).0 h ≡ lib.is_open w h
  pub prepare_same :
      (w : W) (k : ℕ) (sql : Bytes) (h : ℕ)
      → lib.is_open (lib.prepare w k sql).0 h ≡ lib.is_open w h
  pub step_same : (w : W) (k h : ℕ) → lib.is_open (lib.step w k).0 h ≡ lib.is_open w h
  pub finalize_same : (w : W) (k h : ℕ) → lib.is_open (lib.finalize w k) h ≡ lib.is_open w h

-- The commands of a session that a provider answers between `read` and `save`.
pub data Call : Type 0 where
  ask_fields ask_all : Call
  ask : Bytes → Bytes → Call
  put : Bytes → Bytes → Call

module _ {W : Type 0} (lib : Sqlite W) where
  abbrev state_of {ℓ} : {A : Type ℓ} → Result (State lib × A) → Result (State lib)
  state_of (ok (s, a)) = ok s
  state_of (err e) = err e

  unfoldable pub call : State lib → Call → Result (State lib)
  call s ask_fields = state_of (fields lib s)
  call s ask_all = state_of (get_all lib s)
  call s (ask name field) = state_of (get lib s name field)
  call s (put name csv) = state_of (set_entry lib s name csv)

  unfoldable pub calls : State lib → List Call → Result (State lib)
  calls s [] = ok s
  calls s (c ∷ cs) = do s' ← call s c; calls s' cs

module _ {W : Type 0} (lib : Sqlite W) (doc : Documented lib) where
  -- The provider still holds a handle that is closed.
  abbrev pub Dangles : ℕ → State lib → Type 0
  Dangles d s = (s.0.db ≡ some d) × (lib.is_open s.1 d ≡ false)

  abbrev pub Keeps {ℓ} : {A : Type ℓ} → ℕ → State lib × A → Type 0
  Keeps d r = Dangles d r.0

  Holds-on_open {ℓ} :
      {A : Type ℓ} (Q : A → Type 0) (w : W) (o : Option ℕ) (f : ℕ → Result A)
      → ((h : ℕ) → o ≡ some h → Holds Q (f h))
      → Holds Q (on_open lib w o f)
  Holds-on_open Q w none f k = tt
  Holds-on_open Q w (some h) f k = elim (Bool-cases (lib.is_open w h)) [
    | inl y ↦ rw y (k h refl)
    | inr n ↦ rw n tt
  ]

  on_open-Holds {ℓ} :
      {A : Type ℓ} (Q : A → Type 0) (w : W) (o : Option ℕ) (f : ℕ → Result A)
      → ((h : ℕ) → Holds Q (f h))
      → Holds Q (on_open lib w o f)
  on_open-Holds Q w o f k = Holds-on_open Q w o f (λ h e. k h)

  module _ (d : ℕ) (s : State lib) (h : Dangles d s) where
    pub get_all-After : Holds (Keeps d) (get_all lib s)
    unfolding get_all
    get_all-After =
        on_open-Holds (Keeps d) s.1 s.0.worker _ (λ k.
          then-Holds (Keeps d) (row_lines _) _ (λ lines. (h.0, doc.exec_same s.1 k _ d ∙ h.1)))

    pub get-After : (name field : Bytes) → Holds (Keeps d) (get lib s name field)
    unfolding get
    get-After name field = on_open-Holds (Keeps d) s.1 s.0.worker _ (λ k.
        then-Holds (Keeps d) (append_rows _ _) _ (λ text. (h.0, doc.exec_same s.1 k _ d ∙ h.1)))

    already_exists-After : (name : Bytes) → Holds (Keeps d) (already_exists lib s name)
    unfolding already_exists
    already_exists-After name = on_open-Holds (Keeps d) s.1 s.0.worker _ (λ k.
        then-Holds (Keeps d) (append_firsts _ _) _ (λ text. (h.0, doc.exec_same s.1 k _ d ∙ h.1)))

    stepped-Dangles : (k : ℕ) → Dangles d (stepped lib s.0 k (lib.step s.1 k)).0
    stepped-Dangles k = elim (Bool-cases ((lib.step s.1 k).1 == 0 || (lib.step s.1 k).1 == 101)) [
      | inl y ↦ rw y (h.0, doc.finalize_same _ k d ∙ doc.step_same s.1 k d ∙ h.1)
      | inr n ↦ rw n (h.0, doc.step_same s.1 k d ∙ h.1)
    ]

  module _ (d : ℕ) where
    prepared-After :
        (s : State lib)
        → Dangles d s
        → (k : ℕ) (sql : Bytes) → Dangles d (prepared lib s.0 (lib.prepare s.1 k sql)).0
    prepared-After s h k sql =
        let h' : Dangles d (s.0, (lib.prepare s.1 k sql).0) =
          (h.0, doc.prepare_same s.1 k sql d ∙ h.1) in
        elim (Bool-cases ((lib.prepare s.1 k sql).1 == 0)) [
          | inl y ↦
              rw y (stepped-Dangles d (s.0, (lib.prepare s.1 k sql).0) h' (lib.prepare s.1 k sql).2)
          | inr n ↦ rw n h'
        ]

    run_set-After :
        (s : State lib)
        → Dangles d s
        → (name : Bytes) (values : List Bytes) → Holds (Keeps d) (run_set lib s name values)
    run_set-After s h name values =
        bind-Holds (Keeps d) (Keeps d) (already_exists lib s name) _
          (already_exists-After d s h name)
          (λ r k. then-Holds (Keeps d) (set_sql lib r.0 r.1 values name) _ (λ sql.
            on_open-Holds (Keeps d) r.0.1 r.0.0.worker _
              (λ at. prepared-After r.0 k at (c_str sql))))

    counted_set-After :
        (s : State lib)
        → Dangles d s
        → (name : Bytes) (values : List Bytes) → Holds (Keeps d) (counted_set lib s name values)
    counted_set-After s h name values =
        elim (Bool-cases
          (not (length s.0.field_names == 0) && not (length s.0.field_names == length values))) [
            | inl y ↦ rw y h
            | inr n ↦ rw n (run_set-After s h name values)
          ]

    pub set_when-After :
        (s : State lib)
        → Dangles d s
        → (t : Task) (name csv : Bytes) → Holds (Keeps d) (set_when lib s t name csv)
    set_when-After s h running name csv = tt
    set_when-After s h absent name csv = counted_set-After s h name (tokens b':' csv)
    set_when-After s h (finished b) name csv = counted_set-After s h name (tokens b':' csv)

    get_fields-Stays : (s : State lib) → Dangles d s → Holds (Dangles d) (get_fields lib s)
    unfolding get_fields
    get_fields-Stays s h = on_open-Holds (Dangles d) s.1 s.0.worker _ (λ k.
        then-Holds (Dangles d) (push_seconds _ _) _ (λ names. (h.0, doc.exec_same s.1 k _ d ∙ h.1)))

    pub waited-Stays :
        (s : State lib) → Dangles d s → (t : Task) → Holds (Dangles d) (wait_fields lib s t)
    waited-Stays s h running = get_fields-Stays s h
    waited-Stays s h absent = tt
    waited-Stays s h (finished b) = h

    fields_text-After :
        (s : State lib) → Dangles d s → (t : Task) → Holds (Keeps d) (fields_text lib s t)
    fields_text-After s h (finished true) = h
    fields_text-After s h (finished false) = h
    fields_text-After s h absent = tt
    fields_text-After s h running = tt

    pub told-After :
        (r : Result (State lib))
        → Holds (Dangles d) r
        → Holds (Keeps d) (r >>= λ s'. fields_text lib s' s'.0.fields_ready)
    told-After r h =
        bind-Holds (Dangles d) (Keeps d) r _ h (λ s k. fields_text-After s k s.0.fields_ready)

  -- It never says that it succeeded.
  abbrev pub Fails : Result (State lib × Bool) → Type 0
  Fails r = (r ≡ err undefined) ⊎ ((t : State lib) × (r ≡ ok (t, false)))

  pub save-Fails : (d : ℕ) (s : State lib) → Dangles d s → Fails (save lib s)
  unfolding save open_db release
  save-Fails d s h =
      let path : Bytes = c_str s.0.db_path in
      elim (Bool-cases ((lib.open_file s.1 path).1 == 0)) [
        | inr n ↦ rw n (inr (_, refl))
        | inl y ↦ elim (Bool-cases (lib.is_open (lib.open_file s.1 path).0 d)) [
          | inr gone ↦ rw (y, h.0, gone) (inl refl)
          | inl there ↦ elim (doc.open_others s.1 path d there) [
            | inl old ↦ let shut : lib.is_open s.1 d ≡ false = h.1 in cc
            | inr new ↦
                rw (y, h.0, there, ← new, doc.closed (lib.open_file s.1 path).0 d) (inl refl)
          ]
        ]
      ]

  abbrev pub Closed : State lib × Bool → Type 0
  Closed r = r.1 ≡ true → (d : ℕ) × Dangles d r.0

  copied-Closed : (p : DbSqlite) (w : W) (h : ℕ) → Holds Closed (copied lib p w h)
  copied-Closed p w h = elim (Bool-cases (lib.errcode w h == 0)) [
    | inl y ↦ rw y (Holds-on_open Closed w p.db _ (λ d e. λ t. (d, (e, doc.closed w d))))
    | inr n ↦ rw n (λ t. cc)
  ]

  opened_memory-Closed : (p : DbSqlite) (o : W × ℕ × ℕ) → Holds Closed (opened_memory lib p o)
  opened_memory-Closed p (w, rc, h) = elim (Bool-cases (rc == 0)) [
    | inl y ↦ rw y (
        then-Holds Closed (release lib w p.worker) _ (λ w'.
          on_open-Holds Closed w' (some h) _ (λ to.
            on_open-Holds Closed w' p.db _
              (λ from. copied-Closed (record p { worker = some h }) (lib.backup w' to from) to))))
    | inr n ↦ rw n (λ t. cc)
  ]

  pub read-Closed : (s : State lib) → Holds Closed (read lib s)
  unfolding read
  read-Closed s = then-Holds Closed (open_db lib s) _ read_opened-Closed
    where
      read_opened-Closed : (r : State lib × Bool) → Holds Closed (read_opened lib r)
      read_opened-Closed (s', false) = λ t. cc
      read_opened-Closed ((p, w), true) = opened_memory-Closed p _
