-- ===== src/Http/Url.antt =====
-- HttpWrapper/src/request_handler.cpp: `url_decode`, and what `is >> std::hex >> value` reads from
-- the two bytes behind a '%'. The stream skips blanks, takes a sign, then a prefix "0x", then the
-- longest run of digits; what follows the digits is not looked at.
pub mod RoundTrip
use mathlib.Core.Option
use reminder_suite.Prelude.{
  ℕ, ◌+◌, ◌-◌, ◌*◌, ◌%◌, Bool, true, false, ◌&&◌, ◌||◌, List, [], ◌∷◌, Option, none, some, leb,
  ◌==◌, if◌then◌else◌,
}
use reminder_suite.Text.{Bytes}

-- `isspace` in the "C" locale
abbrev pub is_space : ℕ → Bool
is_space c = c == b' ' || leb 9 c && leb c 13

abbrev pub hex_digit : ℕ → Option ℕ
hex_digit c =
    if leb b'0' c && leb c b'9'
    then some (c - b'0')
    else if leb b'a' c && leb c b'f'
    then some (c - b'a' + 10)
    else if leb b'A' c && leb c b'F'
    then some (c - b'A' + 10)
    else none

-- The digits behind the first.
abbrev pub hex_run : ℕ → Bytes → ℕ
hex_run n [] = n
hex_run n (c ∷ cs) = elim (hex_digit c) [ none ↦ n | some d ↦ hex_run (n * 16 + d) cs ]

abbrev pub hex_digits : Bytes → Option ℕ
hex_digits [] = none
hex_digits (c ∷ cs) = elim (hex_digit c) [ none ↦ none | some d ↦ some (hex_run d cs) ]

-- A prefix with no digit behind it is a failure.
abbrev pub hex_unsigned : Bytes → Option ℕ
hex_unsigned (c ∷ x ∷ cs) =
    if c == b'0' && (x == b'x' || x == b'X') then hex_digits cs else hex_digits (c ∷ x ∷ cs)
hex_unsigned s = hex_digits s

-- `static_cast<char>(-n)`, as a byte
abbrev pub negate_byte : ℕ → ℕ
negate_byte n = (256 - n % 256) % 256

abbrev pub hex_signed : Bytes → Option ℕ
hex_signed [] = none
hex_signed (c ∷ cs) =
    if c == b'-'
    then Option.map negate_byte (hex_unsigned cs)
    else if c == b'+'
    then hex_unsigned cs
    else hex_unsigned (c ∷ cs)

abbrev pub skip_spaces : Bytes → Bytes
skip_spaces [] = []
skip_spaces (c ∷ cs) = if is_space c then skip_spaces cs else c ∷ cs

-- The byte that the stream's number is cast to; `none` if the extraction fails.
unfoldable pub read_hex : Bytes → Option ℕ
read_hex s = Option.map (λ n. n % 256) (hex_signed (skip_spaces s))

abbrev pub push_byte : Option ℕ → Option Bytes → Option Bytes
push_byte none rest = none
push_byte (some b) rest = Option.map (◌∷◌ b) rest

abbrev pub plain_byte : ℕ → ℕ
plain_byte c = if c == b'+' then b' ' else c

-- `none` is `return false`. A '%' wants two bytes behind it.
unfoldable pub url_decode : Bytes → Option Bytes
url_decode [] = some []
url_decode (c ∷ []) = if c == b'%' then none else some (plain_byte c ∷ [])
url_decode (c ∷ d ∷ []) =
    if c == b'%' then none else Option.map (◌∷◌ (plain_byte c)) (url_decode (d ∷ []))
url_decode (c ∷ d ∷ e ∷ rest) =
    let escaped = push_byte (read_hex (d ∷ e ∷ [])) (url_decode rest) in
    let plain = Option.map (◌∷◌ (plain_byte c)) (url_decode (d ∷ e ∷ rest)) in
    if c == b'%' then escaped else plain
