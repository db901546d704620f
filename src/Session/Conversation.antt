-- ===== src/Session/Conversation.antt =====
-- Server/src/session.cpp over the text file: whole conversations against what the commands mean.
use mathlib.Core.Path.{subst}
use reminder_suite.Prelude.{
  ◌≤◌, Bool, true, false, List, [], ◌∷◌, some, All, length, inl, inr, Bool-cases, if◌then◌else◌,
  ◌≡◌, ◌≢◌, refl, ap, ◌∙◌,
}
use reminder_suite.Prelude.Fault.{Result, ok}
use reminder_suite.Text.{Bytes, bytes, equal, equal_iff}
use reminder_suite.Provider.Entry.{from_line}
use reminder_suite.Provider.TextFile.{text_file, find_field}
use reminder_suite.Session.{
  do_write, request_parts, drop_eol, run_set, run_delete, run_command, parse_request, converse,
}
use reminder_suite.Session.Outcome.{State}
use reminder_suite.Session.Spec.{Catalogue, Told, Tells, means_get, means_set, means_delete, means}
use reminder_suite.Session.Refinement.{
  catalogue, IsRegular, Refines, unchanged, run_set_line-Refines, run_set_field-Refines,
  run_delete-Refines, run_get-Refines, run_fields-Refines, run_commit-Refines,
}

abbrev SetFits : List Bytes → List Bytes → Type 0
SetFits names (line ∷ []) = length names ≤ length (from_line line).values
SetFits names (name ∷ field ∷ value ∷ []) = find_field field names ≢ some 0
SetFits names _ = Unit {0}

abbrev VerbFits : List Bytes → List Bytes → Type 0
VerbFits names [] = Unit {0}
VerbFits names (verb ∷ args) = verb ≡ bytes "set" → SetFits names args

-- No "delete" with no name, no "set" of a line with fewer values than fields, and no "set" of the
-- field that holds the names.
pub record IsPlain (names : List Bytes) (request : Bytes) : Type 0 where
  pub named : request_parts request ≢ bytes "delete" ∷ []
  pub fits : VerbFits names (request_parts request)

if-Refines :
    (b : Bool) {m m' : Catalogue × Told} {x y : Result (State × Bytes)}
    → Refines m x
    → Refines m' y
    → Refines (if b then m else m') (if b then x else y)
if-Refines true h k = h
if-Refines false h k = k

module _ (s : State) (r : IsRegular s.0) where
  run_set-Refines :
      (args : List Bytes)
      → SetFits s.0.field_names args
      → Refines (means_set (catalogue s.0) args) (run_set text_file s args)
  unfolding run_set
  run_set-Refines (line ∷ []) f = run_set_line-Refines s r line f
  run_set-Refines (name ∷ field ∷ value ∷ []) f = run_set_field-Refines s r name field value f
  run_set-Refines _ f = unchanged s r _

  set-or :
      (verb : Bytes) (args : List Bytes) {m : Catalogue × Told} {y : Result (State × Bytes)}
      → VerbFits s.0.field_names (verb ∷ args)
      → Refines m y
      → Refines
          (if equal verb (bytes "set") then means_set (catalogue s.0) args else m)
          (if equal verb (bytes "set") then run_set text_file s args else y)
  set-or verb args v k = elim (Bool-cases (equal verb (bytes "set"))) [
    | inl e ↦ rw e (run_set-Refines args (v ((equal_iff verb (bytes "set")).0 e)))
    | inr n ↦ rw n k
  ]

  delete-or :
      (verb : Bytes) (args : List Bytes) {m : Catalogue × Told} {y : Result (State × Bytes)}
      → verb ∷ args ≢ bytes "delete" ∷ []
      → Refines m y
      → Refines
          (if equal verb (bytes "delete") then means_delete (catalogue s.0) args else m)
          (if equal verb (bytes "delete") then run_delete text_file s args else y)
  delete-or verb [] d k = elim (Bool-cases (equal verb (bytes "delete"))) [
    | inl e ↦ absurd (d (ap (λ w. w ∷ []) ((equal_iff verb (bytes "delete")).0 e)))
    | inr n ↦ rw n k
  ]
  delete-or verb (name ∷ rest) d k =
      if-Refines (equal verb (bytes "delete")) (run_delete-Refines s r name rest) k

  run_command-Refines :
      (cmd : Bytes) (parts : List Bytes)
      → VerbFits s.0.field_names parts
      → parts ≢ bytes "delete" ∷ []
      → Refines (means (catalogue s.0) cmd parts) (run_command text_file s cmd parts)
  unfolding run_command
  run_command-Refines cmd [] v d = unchanged s r _
  run_command-Refines cmd (verb ∷ args) v d =
      if-Refines (equal verb (bytes "get")) (run_get-Refines s r cmd args) (
        set-or verb args v (
          delete-or verb args d (
            if-Refines (equal verb (bytes "fields")) (run_fields-Refines s r) (
              if-Refines (equal verb (bytes "commit")) (run_commit-Refines s r)
                (unchanged s r _)))))

means_get-names :
    (t : Catalogue) (cmd : Bytes) (args : List Bytes) → (means_get t cmd args).0.names ≡ t.names
means_get-names t cmd [] = refl
means_get-names t cmd (name ∷ rest) = refl

means_set-names : (t : Catalogue) (args : List Bytes) → (means_set t args).0.names ≡ t.names
means_set-names t (line ∷ []) = refl
means_set-names t (name ∷ field ∷ value ∷ []) = refl
means_set-names t [] = refl
means_set-names t (name ∷ field ∷ []) = refl
means_set-names t (name ∷ field ∷ value ∷ more ∷ rest) = refl

means_delete-names : (t : Catalogue) (args : List Bytes) → (means_delete t args).0.names ≡ t.names
means_delete-names t [] = refl
means_delete-names t (name ∷ rest) = refl

either-names :
    (b : Bool) (t : Catalogue) (m m' : Catalogue × Told)
    → m.0.names ≡ t.names
    → m'.0.names ≡ t.names
    → (if b then m else m').0.names ≡ t.names
either-names true t m m' e e' = e
either-names false t m m' e e' = e'

-- No command changes the fields.
means-names :
    (t : Catalogue) (cmd : Bytes) (parts : List Bytes) → (means t cmd parts).0.names ≡ t.names
means-names t cmd [] = refl
means-names t cmd (verb ∷ args) =
    either-names (equal verb (bytes "get")) t _ _ (means_get-names t cmd args) (
      either-names (equal verb (bytes "set")) t _ _ (means_set-names t args) (
        either-names (equal verb (bytes "delete")) t _ _ (means_delete-names t args) (
          either-names (equal verb (bytes "fields")) t _ _ refl
            (either-names (equal verb (bytes "commit")) t _ _ refl refl))))

-- The texts answer the requests one by one, from one table to the next.
abbrev pub Follows : Catalogue → List Bytes → List Bytes → Catalogue → Type 0
Follows t [] texts t' = (texts ≡ []) × (t ≡ t')
Follows t (request ∷ requests) [] t' = ⊥
Follows t (request ∷ requests) (text ∷ texts) t' =
    ((body : Bytes) × (text ≡ do_write body)
      × Tells (means t (drop_eol request) (request_parts request)).0
          (means t (drop_eol request) (request_parts request)).1 body)
    × Follows (means t (drop_eol request) (request_parts request)).0 requests texts t'

-- Over a table with distinct names, in which every entry has a name and a value for each field, every
-- conversation of plain requests goes on to its end. Its answers, and the table that it leaves, are
-- those that the commands mean on the view of the table that forgets the order of the rows.
pub converse-Follows :
    (s : State) (response : Bytes) (requests : List Bytes)
    → IsRegular s.0
    → All (IsPlain s.0.field_names) requests
    → (s' : State) × (texts : List Bytes) × (converse text_file s response requests
        ≡ ok (s', texts))
      × IsRegular s'.0
      × Follows (catalogue s.0) requests texts (catalogue s'.0)
unfolding converse parse_request
converse-Follows s response [] r p = (s, [], refl, r, (refl, refl))
converse-Follows s response (request ∷ requests) r p =
    let x = run_command-Refines s r (drop_eol request) (request_parts request) p.0.fits p.0.named in
    let same : x.state.0.field_names ≡ s.0.field_names =
      ap (λ (t : Catalogue). t.names) x.view
      ∙ means-names (catalogue s.0) (drop_eol request) (request_parts request) in
    let (s', texts, e, r', f) =
      converse-Follows x.state (do_write x.text) requests x.regular (rw same p.1) in
    (
      s',
      do_write x.text ∷ texts,
      rw (x.answered, e),
      r',
      ((x.text, refl, x.told), subst (λ t. Follows t requests texts (catalogue s'.0)) x.view f),
    )
