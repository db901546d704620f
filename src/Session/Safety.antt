-- ===== src/Session/Safety.antt =====
-- Server/src/session.cpp over the text file: the outcomes of a request, and invariants.
use reminder_suite.Prelude.{List, [], ◌∷◌, All, ◌⊎◌, inl, inr, ◌≡◌, ap, arith, Bool-cases}
use reminder_suite.Prelude.Fault.{Result, ok, err, out_of_range}
use reminder_suite.Text.{Bytes, bytes, Free, equal, equal_iff}
use reminder_suite.Provider.Entry.{
  from_line, IsRow, from_line-IsRow, set_value-IsRow, set_value-ne-nil,
}
use reminder_suite.Provider.TextFile.{text_file}
use reminder_suite.Provider.TextFile.Lookup.{HasName}
use reminder_suite.Provider.TextFile.Storage.{IsStorable}
use reminder_suite.Provider.TextFile.Invariant.{SameTable, IsWide}
use reminder_suite.Session.{do_write, request_parts, run_command, parse_request}
use reminder_suite.Session.Requests.{request_parts-no_newline}
use reminder_suite.Session.Outcome.{State, Allows, parse_request-Keeps}

delete_throws :
    (s : State) (response request : Bytes)
    → request_parts request ≡ bytes "delete" ∷ []
    → parse_request text_file s response request ≡ err out_of_range
unfolding parse_request run_command equal
delete_throws s response request e = rw e

abbrev IsBareDelete : List Bytes → Type 0
IsBareDelete parts = parts ≡ bytes "delete" ∷ []

dec-IsBareDelete : (parts : List Bytes) → IsBareDelete parts ⊎ (¬ IsBareDelete parts)
dec-IsBareDelete [] = inr (λ e. cc)
dec-IsBareDelete (p ∷ []) = elim (Bool-cases (equal p (bytes "delete"))) [
  | inl e ↦ inl (ap (λ w. w ∷ []) ((equal_iff p (bytes "delete")).0 e))
  | inr n ↦ inr (λ e. ground (arith, equal_iff p (bytes "delete")))
]
dec-IsBareDelete (p ∷ q ∷ ps) = inr (λ e. cc)

from_line-HasName : (line : Bytes) → Free b'\n' line → Unit {0} → HasName (from_line line)
from_line-HasName line h u = (from_line-IsRow line h).some_value

Allows-all : (parts : List Bytes) → Allows (λ l. Unit {0}) (λ v. Unit {0}) parts
Allows-all [] = tt
Allows-all (verb ∷ []) = λ e. tt
Allows-all (verb ∷ line ∷ []) = λ e. tt
Allows-all (verb ∷ name ∷ field ∷ []) = λ e. tt
Allows-all (verb ∷ name ∷ field ∷ value ∷ []) = λ e. tt
Allows-all (verb ∷ name ∷ field ∷ value ∷ more ∷ rest) = λ e. tt

abbrev IsAnswered : State → Result (State × Bytes) → Type 0
IsAnswered s r =
    (s' : State) × (text : Bytes) × (r ≡ ok (s', do_write text))
    × All HasName s'.0.entries
    × SameTable s.0 s'.0

-- Over a table in which every entry has a value for each field, and at least one, there are two
-- outcomes. The request is "delete" with no name: the handler throws `out_of_range`. Or it is
-- answered with a text that ends in a newline, every entry still has a name, and the path and the
-- fields are the same. Nothing is undefined.
pub parse_request_outcome :
    (s : State) (response request : Bytes)
    → All HasName s.0.entries
    → IsWide s.0
    → (IsBareDelete (request_parts request)
        × (parse_request text_file s response request ≡ err out_of_range))
      ⊎ IsAnswered s (parse_request text_file s response request)
parse_request_outcome s response request h wide = elim (dec-IsBareDelete (request_parts request)) [
  | inl alone ↦ inl (alone, delete_throws s response request alone)
  | inr more ↦ inr (
      parse_request-Keeps HasName (λ l. Unit {0}) (λ v. Unit {0}) (λ e q. q) from_line-HasName
        (λ v _ e i. set_value-ne-nil e i v) s h wide response request (Allows-all _) more)
]

Allows-both :
    (L : Bytes → Type 0) (parts : List Bytes)
    → Allows L (Free b':') parts
    → All (Free b'\n') parts
    → Allows L (λ v. Free b':' v × Free b'\n' v) parts
Allows-both L [] v n = tt
Allows-both L (verb ∷ []) v n = λ e. tt
Allows-both L (verb ∷ line ∷ []) v n = v
Allows-both L (verb ∷ name ∷ field ∷ []) v n = λ e. tt
Allows-both L (verb ∷ name ∷ field ∷ value ∷ []) v n = λ e. (v e, n.1.1.1.0)
Allows-both L (verb ∷ name ∷ field ∷ value ∷ more ∷ rest) v n = λ e. tt

-- Over a table that the file format can hold, in which every entry has a value for each field, every
-- request but a "delete" with no name, and but a `set` of a field to a value that holds a colon, is
-- answered and leaves a table that the file format can hold.
pub parse_request-IsStorable :
    (s : State) (response request : Bytes)
    → IsStorable s.0
    → IsWide s.0
    → Allows (λ l. Unit {0}) (Free b':') (request_parts request)
    → ¬ IsBareDelete (request_parts request)
    → (s' : State) × (text : Bytes) × (parse_request text_file s response request
        ≡ ok (s', do_write text))
      × IsStorable s'.0
parse_request-IsStorable s response request h wide v d =
    let n = request_parts-no_newline request in
    let (s', text, e, rows, same) =
      parse_request-Keeps IsRow (λ l. Unit {0}) (λ v. Free b':' v × Free b'\n' v)
        (λ e q. q.some_value) (λ line f u. from_line-IsRow line f)
        (λ v f e i q. set_value-IsRow e i v q f.0 f.1) s h.rows wide response request
        (Allows-both (λ l. Unit {0}) _ v n) d in
    (s', text, e, record { names = rw same.names h.names; rows = rows })
