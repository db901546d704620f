-- ===== src/Http/Url/RoundTrip.antt =====
-- HttpWrapper/src/request_handler.cpp: `url_decode` against an encoder.
use mathlib.Core.Option
use reminder_suite.Prelude.{
  ℕ, zero, suc, ◌+◌, ◌/◌, ◌%◌, ◌≤◌, ◌<◌, Bool, true, false, ◌&&◌, [], ◌∷◌, none, some, length, ltb,
  ◌==◌, ==_iff, if◌then◌else◌, ◌≡◌, refl, ap, ◌∙◌, Bool-cases, inl, inr, All, arith,
}
use reminder_suite.Text.{Bytes}
use reminder_suite.Http.Url.{read_hex, url_decode, push_byte}

-- An upper-case digit.
abbrev pub hex_char : ℕ → ℕ
hex_char d = if ltb d 10 then b'0' + d else 55 + d

every_byte_below : (ℕ → Bool) → ℕ → Bool
every_byte_below good zero = true
every_byte_below good (suc b) = every_byte_below good b && good b

every_byte_below_sound :
    (good : ℕ → Bool) (bound b : ℕ) → b < bound → every_byte_below good bound ≡ true → good b ≡ true
unfolding every_byte_below
every_byte_below_sound good zero b lt all = absurd (omega arith)
every_byte_below_sound good (suc top) b lt all = ground (arith, every_byte_below_sound good top b)

abbrev same_byte : Option.Option ℕ → ℕ → Bool
same_byte none b = false
same_byte (some a) b = a == b

abbrev reads_back : ℕ → Bool
reads_back b = same_byte (read_hex (hex_char (b / 16) ∷ hex_char (b % 16) ∷ [])) b

-- Every byte, by evaluation.
bytes_read_back : every_byte_below reads_back 256 ≡ true
unfolding every_byte_below read_hex
bytes_read_back = refl

same_byte-some : (o : Option.Option ℕ) (b : ℕ) → same_byte o b ≡ true → o ≡ some b
same_byte-some none b h = cc
same_byte-some (some a) b h = ap some ((==_iff a b).0 h)

read_hex-hex_char :
    (b : ℕ) → b < 256 → read_hex (hex_char (b / 16) ∷ hex_char (b % 16) ∷ []) ≡ some b
read_hex-hex_char b h =
    same_byte-some _ b (every_byte_below_sound reads_back 256 b h bytes_read_back)

-- Bytes that `keep` lets stand are written as they are, the others behind a '%'.
abbrev pub url_encode : (ℕ → Bool) → Bytes → Bytes
url_encode keep [] = []
url_encode keep (b ∷ bs) =
    if keep b
    then b ∷ url_encode keep bs
    else b'%' ∷ hex_char (b / 16) ∷ hex_char (b % 16) ∷ url_encode keep bs

decode_plain :
    (c : ℕ) (cs : Bytes)
    → (c == b'%') ≡ false
    → (c == b'+') ≡ false
    → url_decode (c ∷ cs) ≡ Option.map (◌∷◌ c) (url_decode cs)
unfolding url_decode
decode_plain c [] p q = rw (p, q)
decode_plain c (d ∷ []) p q = rw (p, q)
decode_plain c (d ∷ e ∷ rest) p q = rw (p, q)

decode_escape :
    (d e : ℕ) (rest : Bytes)
    → url_decode (b'%' ∷ d ∷ e ∷ rest) ≡ push_byte (read_hex (d ∷ e ∷ [])) (url_decode rest)
unfolding url_decode
decode_escape d e rest = refl

kept_plain : (keep : ℕ → Bool) (b d : ℕ) → keep b ≡ true → keep d ≡ false → (b == d) ≡ false
kept_plain keep b d h k = elim (Bool-cases (b == d)) [
  | inl same ↦ let e : b ≡ d = (==_iff b d).0 same in cc
  | inr ne ↦ ne
]

-- Decoding what any such encoder wrote gives the text back, for every text of bytes and whatever
-- the encoder lets stand but '%' and '+'.
pub url_decode-url_encode :
    (keep : ℕ → Bool) (s : Bytes)
    → keep b'%' ≡ false
    → keep b'+' ≡ false
    → All (λ b. b < 256) s
    → url_decode (url_encode keep s) ≡ some s
url_decode-url_encode keep [] kp kq h = unfold url_decode in refl
url_decode-url_encode keep (b ∷ bs) kp kq h = elim (Bool-cases (keep b)) [
  | inl stands ↦ rw stands (
      decode_plain b (url_encode keep bs) (kept_plain keep b b'%' stands kp)
        (kept_plain keep b b'+' stands kq)
      ∙ rw (url_decode-url_encode keep bs kp kq h.1))
  | inr written ↦ rw written (
      decode_escape (hex_char (b / 16)) (hex_char (b % 16)) (url_encode keep bs)
      ∙ rw (read_hex-hex_char b h.0, url_decode-url_encode keep bs kp kq h.1))
]

abbrev AtMost : ℕ → Option.Option Bytes → Type 0
AtMost n none = Unit {0}
AtMost n (some t) = length t ≤ n
