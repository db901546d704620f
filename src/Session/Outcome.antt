-- ===== src/Session/Outcome.antt =====
-- Server/src/session.cpp over the text file: lemmas on what can come of a request.
use reminder_suite.Prelude.{
  ℕ, Bool, true, false, List, [], ◌∷◌, All, All-map, Bool-cases, inl, inr, if◌then◌else◌, ◌≡◌, ◌≢◌,
  refl, ap,
}
use reminder_suite.Prelude.Fault.{Result, ok}
use reminder_suite.Text.{Bytes, bytes, Free, equal, equal_iff, before_first}
use reminder_suite.Provider.Entry.{Entry, from_line, set_value}
use reminder_suite.Provider.TextFile.{DbTextFile, Disk, text_file, save}
use reminder_suite.Provider.TextFile.Lookup.{HasName}
use reminder_suite.Provider.TextFile.Invariant.{
  SameTable, set_entry-All, set_field-All, erase-All, IsWide, get-total,
}
use reminder_suite.Session.{
  drop_eol, do_write, request_parts, run_get, run_set, run_delete, run_commit, run_command,
  parse_request, field_argument,
}
use reminder_suite.Session.Requests.{request_parts-no_newline}

abbrev pub State : Type 0
State = DbTextFile × Disk

-- What is asked of the arguments of a `set`: of a whole line, or of a value that replaces one.
abbrev pub AllowsArguments : (Bytes → Type 0) → (Bytes → Type 0) → List Bytes → Type 0
AllowsArguments L V (line ∷ []) = L line
AllowsArguments L V (name ∷ field ∷ value ∷ []) = V value
AllowsArguments L V _ = Unit {0}

abbrev pub Allows : (Bytes → Type 0) → (Bytes → Type 0) → List Bytes → Type 0
Allows L V [] = Unit {0}
Allows L V (verb ∷ args) = verb ≡ bytes "set" → AllowsArguments L V args

-- The request is answered, and every entry is as `Q` asks.
pub record Keeps (Q : Entry → Type 0) (s : State) (r : Result (State × Bytes)) : Type 0 where
  pub state : State
  pub text : Bytes
  pub answered : r ≡ ok (state, text)
  pub entries : All Q state.0.entries
  pub same : SameTable s.0 state.0

module _ (Q : Entry → Type 0) (L V : Bytes → Type 0) (named : (e : Entry) → Q e → HasName e)
    (from_line-Q : (line : Bytes) → Free b'\n' line → L line → Q (from_line line))
    (set_value-Q : (v : Bytes) → V v → (e : Entry) (i : ℕ) → Q e → Q (set_value e i v).0) where
  module _ (s : State) (h : All Q s.0.entries) (wide : IsWide s.0) where
    unchanged : (text : Bytes) → Keeps Q s (ok (s, text))
    unchanged text = record {
      state = s;
      text = text;
      answered = refl;
      entries = h;
      same = record { path = refl; names = refl };
    }

    run_get-Keeps : (cmd : Bytes) (args : List Bytes) → Keeps Q s (run_get text_file s cmd args)
    unfolding run_get
    run_get-Keeps cmd [] = unchanged _
    run_get-Keeps cmd (name ∷ rest) =
        let (r, e) = get-total s.0 name (field_argument rest) (All-map named s.0.entries h) wide in
        rw e (unchanged _)

    run_set-Keeps :
        (args : List Bytes)
        → All (Free b'\n') args
        → AllowsArguments L V args
        → Keeps Q s (run_set text_file s args)
    unfolding run_set
    run_set-Keeps (entry ∷ []) n v =
        let (db, e, a, same) =
          set_entry-All Q s.0 (All-map named s.0.entries h) h (before_first b':' entry) entry
            (from_line-Q entry n.0 v) in
        rw e (record { state = (db, s.1); text = _; answered = refl; entries = a; same = same })
    run_set-Keeps (name ∷ field ∷ value ∷ []) n v =
        let (db, done, e, a, same) =
          set_field-All Q s.0 (All-map named s.0.entries h) h name field value
            (set_value-Q value v) in
        rw e (record { state = (db, s.1); text = _; answered = refl; entries = a; same = same })
    run_set-Keeps _ n v = unchanged _

    run_delete-Keeps :
        (name : Bytes) (rest : List Bytes) → Keeps Q s (run_delete text_file s (name ∷ rest))
    unfolding run_delete
    run_delete-Keeps name rest =
        let (db, done, e, a, same) = erase-All Q s.0 (All-map named s.0.entries h) h name in
        rw e (record { state = (db, s.1); text = _; answered = refl; entries = a; same = same })

    run_commit-Keeps : Keeps Q s (run_commit text_file s)
    unfolding run_commit
    run_commit-Keeps = record {
      state = (s.0, (save s.0 s.1).0);
      text = _;
      answered = refl;
      entries = h;
      same = record { path = refl; names = refl };
    }

    if-Keeps :
        (b : Bool) {x y : Result (State × Bytes)}
        → Keeps Q s x
        → Keeps Q s y
        → Keeps Q s (if b then x else y)
    if-Keeps true kx ky = kx
    if-Keeps false kx ky = ky

    run_set-if :
        (verb : Bytes) (args : List Bytes) {y : Result (State × Bytes)}
        → All (Free b'\n') args
        → Allows L V (verb ∷ args)
        → Keeps Q s y
        → Keeps Q s (if equal verb (bytes "set") then run_set text_file s args else y)
    run_set-if verb args n v ky = elim (Bool-cases (equal verb (bytes "set"))) [
      | inl e ↦ rw e (run_set-Keeps args n (v ((equal_iff verb (bytes "set")).0 e)))
      | inr ne ↦ rw ne ky
    ]

    run_delete-if :
        (verb : Bytes) (args : List Bytes) {y : Result (State × Bytes)}
        → verb ∷ args ≢ bytes "delete" ∷ []
        → Keeps Q s y
        → Keeps Q s (if equal verb (bytes "delete") then run_delete text_file s args else y)
    run_delete-if verb [] d ky = elim (Bool-cases (equal verb (bytes "delete"))) [
      | inl e ↦ absurd (d (ap (λ w. w ∷ []) ((equal_iff verb (bytes "delete")).0 e)))
      | inr n ↦ rw n ky
    ]
    run_delete-if verb (name ∷ rest) d ky =
        if-Keeps (equal verb (bytes "delete")) (run_delete-Keeps name rest) ky

    run_command-Keeps :
        (cmd : Bytes) (parts : List Bytes)
        → All (Free b'\n') parts
        → Allows L V parts
        → parts ≢ bytes "delete" ∷ []
        → Keeps Q s (run_command text_file s cmd parts)
    unfolding run_command
    run_command-Keeps cmd [] n v d = unchanged _
    run_command-Keeps cmd (verb ∷ args) n v d =
        if-Keeps (equal verb (bytes "get")) (run_get-Keeps cmd args) (
          run_set-if verb args n.1 v (
            run_delete-if verb args d (
              if-Keeps (equal verb (bytes "fields")) (unchanged _)
                (if-Keeps (equal verb (bytes "commit")) run_commit-Keeps (unchanged _)))))

    pub parse_request-Keeps :
        (response request : Bytes)
        → Allows L V (request_parts request)
        → request_parts request ≢ bytes "delete" ∷ []
        → (s' : State) × (text : Bytes) × (parse_request text_file s response request
            ≡ ok (s', do_write text))
          × All Q s'.0.entries
          × SameTable s.0 s'.0
    unfolding parse_request
    parse_request-Keeps response request v d =
        let k =
          run_command-Keeps (drop_eol request) (request_parts request)
            (request_parts-no_newline request) v d in
        (k.state, k.text, rw k.answered, k.entries, k.same)
