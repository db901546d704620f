-- ===== src/Http/Parser/Numbers.antt =====
-- HttpWrapper/src/request_parser.cpp: version numbers and their decimal digits.
use reminder_suite.Prelude.{
  ℕ, ◌+◌, ◌-◌, ◌*◌, ◌≤◌, ◌<◌, true, false, [], ◌∷◌, ◌++◌, ◌==◌, ◌≡◌, ◌≢◌, ◌∙◌, refl, arith, All,
  ltb, lt→ltb,
}
use reminder_suite.Prelude.Fault.{ok}
use reminder_suite.Text.{Bytes}
use reminder_suite.Http.{Request}
use reminder_suite.Http.Parser.{
  State, http_version_major_start, http_version_major, http_version_minor_start, http_version_minor,
  expecting_newline_1, consume, parse, is_digit, int_limit, more, add_digit,
}

abbrev pub IsDigit : ℕ → Type 0
IsDigit c = is_digit c ≡ true

-- The value of more digits behind `n`.
abbrev pub number : ℕ → Bytes → ℕ
number n [] = n
number n (c ∷ cs) = number (n * 10 + c - b'0') cs

-- Digits whose value stays clear of the largest `int`, also before `- '0'`.
pub record IsVersion (ds : Bytes) : Type 0 where
  pub some_digit : ds ≢ []
  pub digits : All IsDigit ds
  pub fits : number 0 ds + b'0' < int_limit

IsDigit-bounds : (c : ℕ) → IsDigit c → (48 ≤ c) × (c ≤ 57)
unfolding is_digit
IsDigit-bounds c h = ground arith

number-le : (ds : Bytes) (n : ℕ) → All IsDigit ds → n ≤ number n ds
number-le [] n h = omega arith
number-le (c ∷ cs) n h = omega (arith, IsDigit-bounds c h.0, number-le cs (n * 10 + c - b'0') h.1)

-- A byte that the parser takes with no result yet.
pub parse-more :
    (st : State) (req : Request) (c : ℕ) (cs : Bytes) {st' : State} {req' : Request}
    → consume st req c ≡ more st' req'
    → parse st req (c ∷ cs) ≡ parse st' req' cs
unfolding parse
parse-more st req c cs e = rw e

module _ (n : ℕ) (c : ℕ) (ds : Bytes) (h : All IsDigit (c ∷ ds))
    (fits : number n (c ∷ ds) + b'0' < int_limit) where
  no_overflow : ltb (n * 10 + c) int_limit ≡ true
  no_overflow =
      let below = number-le ds (n * 10 + c - b'0') h.1 in
      let digit = IsDigit-bounds c h.0 in lt→ltb _ _ (omega (arith, below, digit))

  pub add_digit_lem : add_digit n c ≡ ok (n * 10 + c - b'0')
  add_digit_lem = rw no_overflow

digit_plain : (c : ℕ) → IsDigit c → ((c == b'.') ≡ false) × ((c == b'\r') ≡ false)
unfolding is_digit
digit_plain c h = ground arith

abbrev with_major : Request → ℕ → Request
with_major req n = record req { http_version_major = n }

abbrev with_minor : Request → ℕ → Request
with_minor req n = record req { http_version_minor = n }

-- The states that read a digit.
module _ (req : Request) (c : ℕ) (ds : Bytes) (h : All IsDigit (c ∷ ds)) where
  module _ (f : number req.http_version_major (c ∷ ds) + b'0' < int_limit) where
    consume_major :
        consume http_version_major req c
        ≡ more http_version_major (with_major req (req.http_version_major * 10 + c - b'0'))
    unfolding consume
    consume_major = rw ((digit_plain c h.0).0, h.0, add_digit_lem req.http_version_major c ds h f)

    consume_major_start :
        consume http_version_major_start req c
        ≡ more http_version_major (with_major req (req.http_version_major * 10 + c - b'0'))
    unfolding consume
    consume_major_start = rw (h.0, add_digit_lem req.http_version_major c ds h f)

  module _ (f : number req.http_version_minor (c ∷ ds) + b'0' < int_limit) where
    consume_minor :
        consume http_version_minor req c
        ≡ more http_version_minor (with_minor req (req.http_version_minor * 10 + c - b'0'))
    unfolding consume
    consume_minor = rw ((digit_plain c h.0).1, h.0, add_digit_lem req.http_version_minor c ds h f)

    consume_minor_start :
        consume http_version_minor_start req c
        ≡ more http_version_minor (with_minor req (req.http_version_minor * 10 + c - b'0'))
    unfolding consume
    consume_minor_start = rw (h.0, add_digit_lem req.http_version_minor c ds h f)

consume_dot :
    (req : Request) → consume http_version_major req b'.' ≡ more http_version_minor_start req
unfolding consume
consume_dot req = refl

consume_cr : (req : Request) → consume http_version_minor req b'\r' ≡ more expecting_newline_1 req
unfolding consume
consume_cr req = refl

parse_major :
    (ds : Bytes) (req : Request) (rest : Bytes)
    → All IsDigit ds
    → number req.http_version_major ds + b'0' < int_limit
    → parse http_version_major req (ds ++ (b'.' ∷ rest))
      ≡ parse http_version_minor_start (with_major req (number req.http_version_major ds)) rest
parse_major [] req rest h f = parse-more _ req b'.' rest (consume_dot req)
parse_major (c ∷ ds) req rest h f =
    parse-more _ req c (ds ++ (b'.' ∷ rest)) (consume_major req c ds h f)
    ∙ parse_major ds (with_major req (req.http_version_major * 10 + c - b'0')) rest h.1 f

parse_minor :
    (ds : Bytes) (req : Request) (rest : Bytes)
    → All IsDigit ds
    → number req.http_version_minor ds + b'0' < int_limit
    → parse http_version_minor req (ds ++ (b'\r' ∷ rest))
      ≡ parse expecting_newline_1 (with_minor req (number req.http_version_minor ds)) rest
parse_minor [] req rest h f = parse-more _ req b'\r' rest (consume_cr req)
parse_minor (c ∷ ds) req rest h f =
    parse-more _ req c (ds ++ (b'\r' ∷ rest)) (consume_minor req c ds h f)
    ∙ parse_minor ds (with_minor req (req.http_version_minor * 10 + c - b'0')) rest h.1 f

-- The first digit is read in a state of its own.
pub parse_major_start :
    (ds : Bytes) (req : Request) (rest : Bytes)
    → ds ≢ []
    → All IsDigit ds
    → number req.http_version_major ds + b'0' < int_limit
    → parse http_version_major_start req (ds ++ (b'.' ∷ rest))
      ≡ parse http_version_minor_start (with_major req (number req.http_version_major ds)) rest
parse_major_start [] req rest ne h f = absurd (ne refl)
parse_major_start (c ∷ ds) req rest ne h f =
    parse-more _ req c (ds ++ (b'.' ∷ rest)) (consume_major_start req c ds h f)
    ∙ parse_major ds (with_major req (req.http_version_major * 10 + c - b'0')) rest h.1 f

pub parse_minor_start :
    (ds : Bytes) (req : Request) (rest : Bytes)
    → ds ≢ []
    → All IsDigit ds
    → number req.http_version_minor ds + b'0' < int_limit
    → parse http_version_minor_start req (ds ++ (b'\r' ∷ rest))
      ≡ parse expecting_newline_1 (with_minor req (number req.http_version_minor ds)) rest
parse_minor_start [] req rest ne h f = absurd (ne refl)
parse_minor_start (c ∷ ds) req rest ne h f =
    parse-more _ req c (ds ++ (b'\r' ∷ rest)) (consume_minor_start req c ds h f)
    ∙ parse_minor ds (with_minor req (req.http_version_minor * 10 + c - b'0')) rest h.1 f
