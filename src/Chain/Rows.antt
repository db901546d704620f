-- ===== src/Chain/Rows.antt =====
-- HttpWrapper/src/rdb_handler.cpp: the trees that are made of the rows of the text file.
use reminder_suite.Prelude.{
  ℕ, ◌≤◌, ◌<◌, List, [], ◌∷◌, ◌++◌, All, map, length, ◌≡◌, ◌≢◌, refl, ◌∙◌, arith,
}
use reminder_suite.Prelude.Fault.{ok, err, undefined, ◌>>=◌}
use reminder_suite.Text.{Bytes, Free, tokens, write_each}
use reminder_suite.Text.Tokens.{tokens-write_each, write_each-cons}
use reminder_suite.Provider.Entry.{Entry, as_string, IsRow}
use reminder_suite.Http.Rdb.{PropertyTree, put_row, push_row, push_rows}

pub tokens-as_string : (e : Entry) → IsRow e → tokens b':' (as_string e) ≡ e.values
unfolding as_string
tokens-as_string e h = values-read e.values h.some_value h.no_colon
  where
    values-read :
        (vs : List Bytes)
        → vs ≢ []
        → All (Free b':') vs
        → tokens b':' (write_each (b':' ∷ []) vs) ≡ vs
    values-read [] ne f = absurd (ne refl)
    values-read (v ∷ vs) ne f = tokens-write_each b':' v vs f

pub as_string-cons : (e : Entry) → IsRow e → (r : ℕ) × (rs : Bytes) × (as_string e ≡ r ∷ rs)
unfolding as_string
as_string-cons e h = values-cons e.values h.some_value
  where
    values-cons :
        (vs : List Bytes) → vs ≢ [] → (r : ℕ) × (rs : Bytes) × (write_each (b':' ∷ []) vs ≡ r ∷ rs)
    values-cons [] ne = absurd (ne refl)
    values-cons (v ∷ vs) ne = write_each-cons b':' v vs

module _ (pt : PropertyTree) where
  open pt use {Tree, empty, push_back, put}

  -- Each value under the field at its place.
  abbrev pub row_tree : Tree → List Bytes → List Bytes → Tree
  row_tree node [] vs = node
  row_tree node (f ∷ fs) [] = node
  row_tree node (f ∷ fs) (v ∷ vs) = row_tree (put node f v) fs vs

  abbrev pub rows_tree : Tree → List Bytes → List Entry → Tree
  rows_tree children fs [] = children
  rows_tree children fs (e ∷ es) = rows_tree (push_back children (row_tree empty fs e.values)) fs es

  put_row-row_tree :
      (node : Tree) (fs vs : List Bytes)
      → length vs ≤ length fs
      → put_row pt node fs vs ≡ ok (row_tree node fs vs)
  unfolding put_row
  put_row-row_tree node [] [] h = refl
  put_row-row_tree node [] (v ∷ vs) h = absurd (omega arith)
  put_row-row_tree node (f ∷ fs) [] h = refl
  put_row-row_tree node (f ∷ fs) (v ∷ vs) h = put_row-row_tree (put node f v) fs vs (omega arith)

  push_row-some :
      (children : Tree) (fs : List Bytes) (text : Bytes) {r : ℕ} {rs : Bytes}
      → text ≡ r ∷ rs
      → push_row pt children fs text
        ≡ (put_row pt empty fs (tokens b':' text) >>= λ node. ok (push_back children node))
  push_row-some children fs text c = rw c refl

  push_row-as_string :
      (children : Tree) (fs : List Bytes) (e : Entry)
      → IsRow e
      → length e.values ≤ length fs
      → push_row pt children fs (as_string e) ≡ ok (push_back children (row_tree empty fs e.values))
  push_row-as_string children fs e h narrow =
      let (r, rs, c) = as_string-cons e h in
      push_row-some children fs (as_string e) c
      ∙ rw (tokens-as_string e h, put_row-row_tree empty fs e.values narrow)

  pub push_rows-as_string :
      (children : Tree) (fs : List Bytes) (es : List Entry)
      → All IsRow es
      → All (λ e. length e.values ≤ length fs) es
      → push_rows pt children fs (map as_string es ++ [] ∷ []) ≡ ok (rows_tree children fs es)
  unfolding push_rows
  push_rows-as_string children fs [] h narrow = refl
  push_rows-as_string children fs (e ∷ es) h narrow =
      rw (push_row-as_string children fs e h.0 narrow.0)
        (push_rows-as_string (push_back children (row_tree empty fs e.values)) fs es h.1 narrow.1)

module _ (pt : PropertyTree) where
  open pt use {Tree, empty, push_back, put}

  put_row-wide :
      (node : Tree) (fs vs : List Bytes)
      → length fs < length vs
      → put_row pt node fs vs ≡ err undefined
  unfolding put_row
  put_row-wide node fs [] h = absurd (omega arith)
  put_row-wide node [] (v ∷ vs) h = refl
  put_row-wide node (f ∷ fs) (v ∷ vs) h = put_row-wide (put node f v) fs vs (omega arith)

  pub push_rows-wide :
      (children : Tree) (fs : List Bytes) (before : List Entry) (e : Entry) (after : List Entry)
      → All IsRow (before ++ (e ∷ after))
      → All (λ e. length e.values ≤ length fs) before
      → length fs < length e.values
      → push_rows pt children fs (map as_string (before ++ (e ∷ after)) ++ [] ∷ []) ≡ err undefined
  unfolding push_rows
  push_rows-wide children fs [] e after h narrow wide =
      let (r, rs, c) = as_string-cons e h.0 in
      rw (
        push_row-some pt children fs (as_string e) c,
        tokens-as_string e h.0,
        put_row-wide empty fs e.values wide,
      )
  push_rows-wide children fs (b ∷ before) e after h narrow wide =
      rw (push_row-as_string pt children fs b h.0 narrow.0) (
        push_rows-wide (push_back children (row_tree pt empty fs b.values)) fs before e after h.1
          narrow.1 wide)
