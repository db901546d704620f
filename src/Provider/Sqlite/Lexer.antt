-- ===== src/Provider/Sqlite/Lexer.antt =====
-- DataProvider/DBSQLite/src/DBSQLite.cpp: the tokens by which SQL reads the statements of this file. A
-- literal stands between quotes, and a quote in it is written twice; a word ends at a blank or at
-- a sign.
use reminder_suite.Prelude.{
  ℕ, Bool, false, ◌||◌, List, [], ◌∷◌, ◌++◌, ◌==◌, append-nil, append_assoc, if◌then◌else◌, ◌≡◌,
  ◌≢◌, refl, ◌∙◌, All, arith,
}
use reminder_suite.Text.{Bytes, Free}

pub data Token : Type 0 where
  word lit : Bytes → Token
  sign : ℕ → Token
  unclosed : Token

-- Outside a literal, in one, and behind a quote that may have ended it; with what was read of it.
pub data Mode : Type 0 where
  outside inside closing : Bytes → Mode

abbrev pub is_sign : ℕ → Bool
is_sign c = c == b'(' || c == b')' || c == b',' || c == b';' || c == b'=' || c == b'*'

abbrev pub ended : Bytes → List Token
ended [] = []
ended (c ∷ cs) = word (c ∷ cs) ∷ []

abbrev pub step_outside : Bytes → ℕ → Mode × List Token
step_outside w c =
    if c == b'\''
    then (inside [], ended w)
    else if c == b' '
    then (outside [], ended w)
    else if is_sign c
    then (outside [], ended w ++ sign c ∷ [])
    else (outside (w ++ c ∷ []), [])

abbrev pub step : Mode → ℕ → Mode × List Token
step (outside w) c = step_outside w c
step (inside v) c = if c == b'\'' then (closing v, []) else (inside (v ++ c ∷ []), [])
step (closing v) c =
    if c == b'\''
    then (inside (v ++ b'\'' ∷ []), [])
    else ((step_outside [] c).0, lit v ∷ (step_outside [] c).1)

abbrev pub last_token : Mode → List Token
last_token (outside w) = ended w
last_token (inside v) = unclosed ∷ []
last_token (closing v) = lit v ∷ []

unfoldable pub scan_from : Mode → Bytes → List Token
scan_from m [] = last_token m
scan_from m (c ∷ cs) = (step m c).1 ++ scan_from (step m c).0 cs

abbrev pub scan : Bytes → List Token
scan = scan_from (outside [])

-- A byte of a word.
abbrev pub IsLetter : ℕ → Type 0
IsLetter c = (c ≢ b'\'') × (c ≢ b' ') × (is_sign c ≡ false)

pub scan-inside :
    (a v rest : Bytes)
    → Free b'\'' v
    → scan_from (inside a) (v ++ rest) ≡ scan_from (inside (a ++ v)) rest
unfolding scan_from
scan-inside a [] rest h = rw append-nil refl
scan-inside a (c ∷ cs) rest h =
    let other : (c == b'\'') ≡ false = ground arith in
    rw other (scan-inside (a ++ c ∷ []) cs rest h.1 ∙ rw append_assoc refl)

pub scan-word :
    (w v rest : Bytes)
    → All IsLetter v
    → scan_from (outside w) (v ++ rest) ≡ scan_from (outside (w ++ v)) rest
unfolding scan_from
scan-word w [] rest h = rw append-nil refl
scan-word w (c ∷ cs) rest h =
    let no_quote : (c == b'\'') ≡ false = ground arith in
    let no_blank : (c == b' ') ≡ false = ground arith in
    rw (no_quote, no_blank, h.0.2) (scan-word (w ++ c ∷ []) cs rest h.1 ∙ rw append_assoc refl)
