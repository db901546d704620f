-- ===== src/Provider/Entry.antt =====
-- DataProvider/DBTextFile/src/entry.cpp: a row of the text file.
use reminder_suite.Prelude.{
  ℕ, Bool, true, false, List, [], ◌∷◌, ◌++◌, append_assoc, append-nil, ◌≡◌, ◌≢◌, refl, sym, Option,
  none, some, zero, suc, Bool-cases, inl, inr, All, All-set, length, get_elem?, set, leb,
  if◌then◌else◌, arith,
}
use reminder_suite.Prelude.Fault.{Result, ok, err, undefined}
use reminder_suite.Text.{Bytes, Free, Free-append, tokens, write_each}
use reminder_suite.Text.Tokens.{tokens-keep-Free, tokens-ne-nil, tokens-write_each, All-tokens}

pub record Entry : Type 0 where
  pub values : List Bytes

-- `Entry(line)`
unfoldable pub from_line : Bytes → Entry
from_line line = record { values = tokens b':' line }

abbrev pub get_count : Entry → ℕ
get_count e = length e.values

abbrev or_undefined : Option Bytes → Result Bytes
or_undefined none = err undefined
or_undefined (some v) = ok v

-- `values_[idx]`, with no check
unfoldable pub get_value : Entry → ℕ → Result Bytes
get_value e idx = or_undefined (get_elem? e.values idx)

unfoldable pub set_entry : Entry → Entry → Entry × Bool
set_entry e entry = (record e { values = entry.values }, true)

unfoldable pub set_value : Entry → ℕ → Bytes → Entry × Bool
set_value e idx value =
    if leb (length e.values) idx
    then (e, false)
    else (record e { values = set e.values idx value }, true)

-- `asString()`, and `operator<<` into a stream
unfoldable pub as_string : Entry → Bytes
as_string e = write_each (b':' ∷ []) e.values

-- the loop of `operator>>`
append_values : Bytes → List Bytes → Bytes
append_values dest [] = dest
append_values dest (v ∷ vs) = append_values ((dest ++ v) ++ b':' ∷ []) vs

-- `entry >> dest`
pub append_onto : Entry → Bytes → Bytes
append_onto e dest = append_values dest e.values

append_values_lem :
    (vs : List Bytes) (dest : Bytes) → append_values dest vs ≡ dest ++ write_each (b':' ∷ []) vs
unfolding append_values write_each
append_values_lem [] dest = sym (append-nil dest)
append_values_lem (v ∷ vs) dest = simp (append_values_lem vs, append_assoc)

-- The two ways to print an entry agree.
pub append_onto-as_string : (e : Entry) (dest : Bytes) → append_onto e dest ≡ dest ++ as_string e
unfolding append_onto as_string
append_onto-as_string e dest = append_values_lem e.values dest

-- A row as a line of the file can hold it: at least one value, and none with a separator.
pub record IsRow (e : Entry) : Type 0 where
  pub some_value : e.values ≢ []
  pub no_colon : All (Free b':') e.values
  pub no_newline : All (Free b'\n') e.values

from_values :
    (vs : List Bytes) → vs ≢ [] → All (Free b':') vs → tokens b':' (write_each (b':' ∷ []) vs) ≡ vs
from_values [] ne h = absurd (ne refl)
from_values (v ∷ vs) ne h = tokens-write_each b':' v vs h

-- A row that the format can hold is read back from its line.
pub from_line-as_string : (e : Entry) → IsRow e → from_line (as_string e) ≡ e
unfolding from_line as_string
from_line-as_string e h = λ i. record { values = from_values e.values h.some_value h.no_colon i }

-- Every line of a file reads as a row.
pub from_line-IsRow : (line : Bytes) → Free b'\n' line → IsRow (from_line line)
unfolding from_line
from_line-IsRow line h = record {
  some_value = tokens-ne-nil b':' line;
  no_colon = All-tokens b':' line;
  no_newline = tokens-keep-Free b':' b'\n' line h;
}

write_each-Free :
    (sep b : ℕ) (vs : List Bytes) → b ≢ sep → All (Free b) vs → Free b (write_each (sep ∷ []) vs)
unfolding write_each
write_each-Free sep b [] n h = tt
write_each-Free sep b (v ∷ vs) n h =
    Free-append b v (sep ∷ write_each (sep ∷ []) vs) h.0
      ((λ e. n (sym e)), write_each-Free sep b vs n h.1)

pub as_string-Free : (e : Entry) → All (Free b'\n') e.values → Free b'\n' (as_string e)
unfolding as_string
as_string-Free e h = write_each-Free b':' b'\n' e.values (omega arith) h

set-ne-nil : (vs : List Bytes) (i : ℕ) (v : Bytes) → vs ≢ [] → set vs i v ≢ []
set-ne-nil [] i v h = h
set-ne-nil (x ∷ xs) zero v h = ground arith
set-ne-nil (x ∷ xs) (suc i) v h = ground arith

pub set_value-ne-nil :
    (e : Entry) (idx : ℕ) (v : Bytes) → e.values ≢ [] → (set_value e idx v).0.values ≢ []
unfolding set_value
set_value-ne-nil e idx v h = elim (Bool-cases (leb (length e.values) idx)) [
  | inl past ↦ rw past h
  | inr inside ↦ rw inside (set-ne-nil e.values idx v h)
]

pub set_value-IsRow :
    (e : Entry) (idx : ℕ) (v : Bytes)
    → IsRow e
    → Free b':' v
    → Free b'\n' v
    → IsRow (set_value e idx v).0
unfolding set_value
set_value-IsRow e idx v h c n = elim (Bool-cases (leb (length e.values) idx)) [
  | inl past ↦ rw past h
  | inr inside ↦ rw inside (record {
    some_value = set-ne-nil e.values idx v h.some_value;
    no_colon = All-set (Free b':') e.values idx v h.no_colon c;
    no_newline = All-set (Free b'\n') e.values idx v h.no_newline n;
  })
]
