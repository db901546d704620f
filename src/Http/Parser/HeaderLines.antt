-- ===== src/Http/Parser/HeaderLines.antt =====
-- Reading back the header lines, each "name: value".
use reminder_suite.Prelude.{
  ℕ, Bool, true, false, List, [], ◌∷◌, ◌++◌, append_assoc, append-nil, ◌≡◌, ◌≢◌, ◌∙◌, refl, All,
  ◌&&◌,
}
use reminder_suite.Text.{Bytes}
use reminder_suite.Http.{Request, Header}
use reminder_suite.Http.Parser.{
  header_line_start, header_name, header_value, consume, parse, more, push_name, push_value,
}
use reminder_suite.Http.Parser.Syntax.{IsToken, IsText, IsHeader, update_back-append}
use reminder_suite.Http.Parser.Numbers.{parse-more}
use reminder_suite.Http.Parser.RequestLine.{token_plain, text_plain}

abbrev pub header_lines : List Header → Bytes → Bytes
header_lines [] rest = rest
header_lines (h ∷ hs) rest =
    h.name ++ (b':' ∷ b' ' ∷ (h.value ++ (b'\r' ∷ b'\n' ∷ header_lines hs rest)))

and_false : (b : Bool) → (b && false) ≡ false
and_false true = refl
and_false false = refl

module _ (req : Request) (hs : List Header) where
  -- The request whose last header is `h`.
  abbrev last : Header → Request
  last h = record req { headers = hs ++ h ∷ [] }

  abbrev named : Bytes → Bytes → Request
  named n v = last (record { name = n; value = v })

  consume_name :
      (n v : Bytes) (c : ℕ)
      → IsToken c
      → consume header_name (named n v) c ≡ more header_name (named (n ++ c ∷ []) v)
  unfolding consume
  consume_name n v c h =
      rw (
        (token_plain c h).1,
        h,
        update_back-append (push_name c) hs (record { name = n; value = v }),
      )

  consume_value :
      (n v : Bytes) (c : ℕ)
      → IsText c
      → consume header_value (named n v) c ≡ more header_value (named n (v ++ c ∷ []))
  unfolding consume
  consume_value n v c h =
      rw (text_plain c h, h, update_back-append (push_value c) hs (record { name = n; value = v }))

  parse_name :
      (cs n : Bytes) (rest : Bytes)
      → All IsToken cs
      → parse header_name (named n []) (cs ++ (b':' ∷ b' ' ∷ rest))
        ≡ parse header_value (named (n ++ cs) []) rest
  parse_name [] n rest h = rw append-nil (unfold parse consume in refl)
  parse_name (c ∷ cs) n rest h =
      parse-more _ _ c (cs ++ (b':' ∷ b' ' ∷ rest)) (consume_name n [] c h.0)
      ∙ parse_name cs (n ++ c ∷ []) rest h.1
      ∙ rw append_assoc

  parse_value :
      (cs n v : Bytes) (rest : Bytes)
      → All IsText cs
      → parse header_value (named n v) (cs ++ (b'\r' ∷ b'\n' ∷ rest))
        ≡ parse header_line_start (named n (v ++ cs)) rest
  parse_value [] n v rest h = rw append-nil (unfold parse consume in refl)
  parse_value (c ∷ cs) n v rest h =
      parse-more _ _ c (cs ++ (b'\r' ∷ b'\n' ∷ rest)) (consume_value n v c h.0)
      ∙ parse_value cs n (v ++ c ∷ []) rest h.1
      ∙ rw append_assoc

  consume_first :
      (c : ℕ)
      → IsToken c
      → consume header_line_start (record req { headers = hs }) c
        ≡ more header_name (named (c ∷ []) [])
  unfolding consume
  consume_first c h =
      let (space, colon, cr, tab) = token_plain c h in
      rw (
        cr,
        space,
        tab,
        and_false,
        h,
        update_back-append (push_name c) hs (record { name = []; value = [] }),
      )

  parse_first :
      (n : Bytes) (rest : Bytes)
      → n ≢ []
      → All IsToken n
      → parse header_line_start (record req { headers = hs }) (n ++ (b':' ∷ b' ' ∷ rest))
        ≡ parse header_value (named n []) rest
  parse_first [] rest ne h = absurd (ne refl)
  parse_first (c ∷ cs) rest ne h =
      parse-more _ _ c (cs ++ (b':' ∷ b' ' ∷ rest)) (consume_first c h.0)
      ∙ parse_name cs (c ∷ []) rest h.1

  -- One line adds one header.
  pub parse-header_line :
      (h : Header) (rest : Bytes)
      → IsHeader h
      → parse header_line_start
          (record req { headers = hs })
          (h.name ++ (b':' ∷ b' ' ∷ (h.value ++ (b'\r' ∷ b'\n' ∷ rest))))
        ≡ parse header_line_start (last h) rest
  parse-header_line h rest k =
      parse_first h.name _ k.name_some k.name_token
      ∙ parse_value h.value h.name [] rest k.value_text

pub parse-header_lines :
    (ks : List Header) (req : Request) (hs : List Header) (rest : Bytes)
    → All IsHeader ks
    → parse header_line_start (record req { headers = hs }) (header_lines ks rest)
      ≡ parse header_line_start (record req { headers = hs ++ ks }) rest
parse-header_lines [] req hs rest h = rw append-nil
parse-header_lines (k ∷ ks) req hs rest h =
    parse-header_line req hs k (header_lines ks rest) h.0
    ∙ parse-header_lines ks req (hs ++ k ∷ []) rest h.1
    ∙ rw append_assoc
