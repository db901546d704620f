-- ===== src/Text.antt =====
-- `std::string` as a list of bytes, and what the sources use of the standard library on it:
-- comparison, and `sregex_token_iterator(…, -1)` over a pattern that is one byte.
pub mod Tokens
use Prim.Native.Char.{code}
use reminder_suite.Prelude.{
  ℕ, String, List, [], ◌∷◌, ◌++◌, Bool, true, false, ◌&&◌, ◌==◌, if◌then◌else◌, ◌≡◌, refl, ◌≢◌, ◌↔◌,
  arith,
}

abbrev pub Bytes : Type 0
Bytes = List ℕ

-- A literal; every literal of the sources is ASCII.
abbrev pub bytes : String → Bytes
bytes String.[] = []
bytes (String.◌∷◌ c s) = code c ∷ bytes s

-- `a == b`, `a.compare(b) == 0`
unfoldable pub equal : Bytes → Bytes → Bool
equal [] [] = true
equal (x ∷ xs) (y ∷ ys) = x == y && equal xs ys
equal _ _ = false

pub equal_iff : (s t : Bytes) → (equal s t ≡ true) ↔ (s ≡ t)
unfolding equal
equal_iff (c ∷ s) (d ∷ t) = ground (arith, equal_iff s t)
equal_iff _ _ = ground arith

pub equal_refl : (a : Bytes) → equal a a ≡ true
equal_refl a = (equal_iff a a).1 refl

pub not-equal : (a b : Bytes) → a ≢ b → equal a b ≡ false
not-equal a b n = ground (arith, equal_iff a b)

-- `s` holds no byte `sep`.
abbrev pub Free : ℕ → Bytes → Type 0
Free sep [] = Unit
Free sep (c ∷ cs) = (c ≢ sep) × Free sep cs

abbrev pub cons_head : ℕ → List Bytes → List Bytes
cons_head c [] = (c ∷ []) ∷ []
cons_head c (t ∷ ts) = (c ∷ t) ∷ ts

-- The parts between the matches. A text without a match is one part, also when it is empty; an
-- empty part behind the last match is not produced.
unfoldable pub tokens : ℕ → Bytes → List Bytes
tokens sep [] = [] ∷ []
tokens sep (c ∷ []) = (if c == sep then [] else c ∷ []) ∷ []
tokens sep (c ∷ d ∷ cs) =
    let rest = tokens sep (d ∷ cs) in if c == sep then [] ∷ rest else cons_head c rest

-- `std::copy(…, ostream_iterator<string>(os, ":"))`: every text is followed by the separator.
unfoldable pub write_each : Bytes → List Bytes → Bytes
write_each sep [] = []
write_each sep (t ∷ ts) = t ++ (sep ++ write_each sep ts)

-- What a C function sees of `s.c_str()`: the bytes before the first NUL.
unfoldable pub c_str : Bytes → Bytes
c_str [] = []
c_str (c ∷ cs) = let rest = c_str cs in if c == 0 then [] else c ∷ rest

pub c_str-Free : (s : Bytes) → Free 0 s → c_str s ≡ s
unfolding c_str
c_str-Free [] h = refl
c_str-Free (c ∷ cs) h = ground (arith, c_str-Free cs h.1)

pub Free-append : (sep : ℕ) (s t : Bytes) → Free sep s → Free sep t → Free sep (s ++ t)
Free-append sep [] t hs ht = ht
Free-append sep (c ∷ cs) t hs ht = (hs.0, Free-append sep cs t hs.1 ht)

-- `s.substr(0, s.find_first_of(sep))`: all of `s` where `sep` is not found.
unfoldable pub before_first : ℕ → Bytes → Bytes
before_first sep [] = []
before_first sep (c ∷ cs) = let rest = before_first sep cs in if c == sep then [] else c ∷ rest

-- `s.compare(0, n, prefix) == 0` for a prefix of `n` bytes
unfoldable pub starts_with : Bytes → Bytes → Bool
starts_with [] s = true
starts_with (p ∷ ps) [] = false
starts_with (p ∷ ps) (c ∷ cs) = p == c && starts_with ps cs
