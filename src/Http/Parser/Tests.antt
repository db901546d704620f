-- ===== src/Http/Parser/Tests.antt =====
-- Runs of the request parser, and the theorems about it at a small request.
use reminder_suite.Prelude.{[], ◌∷◌, ◌⊎◌, ◌≡◌, refl, arith}
use reminder_suite.Prelude.Fault.{ok, err, undefined}
use reminder_suite.Text.{Bytes, bytes}
use reminder_suite.Http.{Request}
use reminder_suite.Http.Parser.{
  method_start, expecting_newline_3, good, consume, Parsed, parse, is_char, is_ctl, is_tspecial,
  is_digit, update_back,
}
use reminder_suite.Http.Parser.Safety.{HasHeader, OverflowsAt, parse_outcome}
use reminder_suite.Http.Parser.Syntax.{IsWellFormed, blank, parse-IsWellFormed}
use reminder_suite.Http.Parser.RoundTrip.{print_request, parse-print_request}

abbrev pub get_fields : Request
get_fields = record {
  method = bytes "GET";
  uri = bytes "/rdb/fields";
  http_version_major = 1;
  http_version_minor = 0;
  headers = (record { name = bytes "Host"; value = bytes "a b" }) ∷ [];
}

abbrev text : Bytes
text = bytes "GET /rdb/fields HTTP/1.0\r\nHost: a b\r\n\r\nrest"

parse_text :
    parse method_start (blank 7 7) text
    ≡ ok (record {
      result = good;
      state = expecting_newline_3;
      req = get_fields;
      rest = bytes "rest";
    })
unfolding parse consume is_char is_ctl is_tspecial is_digit update_back
parse_text = refl

-- A continuation line is joined to the value before it.
parse_folded :
    (p : Parsed) × (parse method_start (blank 0 0) (bytes "G / HTTP/1.1\r\na: b\r\n c\r\n\r\n")
      ≡ ok p)
    × (p.result ≡ good)
    × (p.req.headers ≡ (record { name = bytes "a"; value = bytes "bc" }) ∷ [])
unfolding parse consume is_char is_ctl is_tspecial is_digit update_back
parse_folded = (_, refl, refl, refl)

pub get_fields-IsWellFormed : IsWellFormed get_fields
unfolding is_char is_ctl is_tspecial
get_fields-IsWellFormed = record {
  method_token = (refl, (refl, (refl, tt)));
  method_some = λ e. cc;
  uri_bytes = (
    (refl, refl),
    (
      (refl, refl),
      (
        (refl, refl),
        (
          (refl, refl),
          (
            (refl, refl),
            (
              (refl, refl),
              ((refl, refl), ((refl, refl), ((refl, refl), ((refl, refl), ((refl, refl), tt))))),
            ),
          ),
        ),
      ),
    ),
  );
  headers_fine = (
    record {
      name_token = (refl, (refl, (refl, (refl, tt))));
      name_some = λ e. cc;
      value_text = (refl, (refl, (refl, tt)));
    },
    tt,
  );
}

parse_outcome_example :
    ((p : Parsed) × (parse method_start (blank 7 7) (bytes "G / HTTP/99999999999") ≡ ok p)
      × HasHeader p.state p.req)
    ⊎ ((parse method_start (blank 7 7) (bytes "G / HTTP/99999999999") ≡ err undefined)
        × OverflowsAt method_start (blank 7 7) (bytes "G / HTTP/99999999999"))
parse_outcome_example = parse_outcome method_start (blank 7 7) (bytes "G / HTTP/99999999999") tt

parse_overflow : parse method_start (blank 7 7) (bytes "G / HTTP/99999999999") ≡ err undefined
unfolding parse consume is_char is_ctl is_tspecial is_digit
parse_overflow = refl

parse-IsWellFormed_example : IsWellFormed get_fields
parse-IsWellFormed_example = parse-IsWellFormed 7 7 text parse_text refl

parse-print_request_example :
    parse method_start
      (blank 7 7)
      (print_request get_fields (bytes "1") (bytes "00") (bytes "rest"))
    ≡ ok (record {
      result = good;
      state = expecting_newline_3;
      req = get_fields;
      rest = bytes "rest";
    })
parse-print_request_example =
    parse-print_request get_fields (bytes "1") (bytes "00") (bytes "rest") 7 7
      get_fields-IsWellFormed
      (record { some_digit = λ e. cc; digits = (unfold is_digit in refl, tt); fits = omega arith })
      (record {
        some_digit = λ e. cc;
        digits = (unfold is_digit in refl, (unfold is_digit in refl, tt));
        fits = omega arith;
      })
      refl refl
