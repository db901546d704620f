-- ===== src/Http/Parser/Syntax.antt =====
-- HttpWrapper/src/request_parser.cpp: the syntax of requests.
use reminder_suite.Prelude.{
  ℕ, false, not, ◌||◌, List, [], ◌∷◌, ◌++◌, ◌==◌, ◌≡◌, ◌≢◌, refl, arith, All, All-append,
}
use reminder_suite.Prelude.Fault.{Result, ok, err, ◌>>=◌}
use reminder_suite.Text.{Bytes}
use reminder_suite.Http.{Request, Header}
use reminder_suite.Http.Parser.{
  State, method_start, method, uri, expecting_newline_3, header_line_start, header_lws, header_name,
  header_value, ResultType, good, bad, indeterminate, Consumed, consume, Parsed, parse, update_back,
  push_name, push_value, is_char, is_ctl, is_tspecial, more, add_value, add_name,
}

abbrev pub IsToken : ℕ → Type 0
IsToken c = (not (is_char c) || is_ctl c || is_tspecial c) ≡ false

abbrev pub IsUriByte : ℕ → Type 0
IsUriByte c = ((c == b' ') ≡ false) × (is_ctl c ≡ false)

abbrev pub IsText : ℕ → Type 0
IsText c = is_ctl c ≡ false

pub record IsHeader (h : Header) : Type 0 where
  pub name_token : All IsToken h.name
  pub name_some : h.name ≢ []
  pub value_text : All IsText h.value

-- A method that is a token, a target without spaces and control bytes, and headers with a token
-- for a name and no control byte in the value.
pub record IsWellFormed (req : Request) : Type 0 where
  pub method_token : All IsToken req.method
  pub method_some : req.method ≢ []
  pub uri_bytes : All IsUriByte req.uri
  pub headers_fine : All IsHeader req.headers

abbrev Started : State → Request → Type 0
Started method_start req = Unit {0}
Started _ req = req.method ≢ []

-- What the parser keeps while it reads.
record IsClean (st : State) (req : Request) : Type 0 where
  method_token : All IsToken req.method
  method_some : Started st req
  uri_bytes : All IsUriByte req.uri
  headers_fine : All IsHeader req.headers

concat-ne-nil : (s : Bytes) (c : ℕ) → s ++ c ∷ [] ≢ []
concat-ne-nil [] c e = cc
concat-ne-nil (x ∷ xs) c e = cc

pub update_back-append :
    (f : Header → Header) (hs : List Header) (h : Header)
    → update_back f (hs ++ h ∷ []) ≡ ok (hs ++ f h ∷ [])
unfolding update_back
update_back-append f [] h = refl
update_back-append f (x ∷ []) h = refl
update_back-append f (x ∷ y ∷ hs) h = rw (update_back-append f (y ∷ hs) h)

push_name-IsHeader : (c : ℕ) (h : Header) → IsToken c → IsHeader h → IsHeader (push_name c h)
push_name-IsHeader c h t k = record {
  name_token = All-append IsToken h.name (c ∷ []) k.name_token (t, tt);
  name_some = concat-ne-nil h.name c;
  value_text = k.value_text;
}

push_value-IsHeader : (c : ℕ) (h : Header) → IsText c → IsHeader h → IsHeader (push_value c h)
push_value-IsHeader c h t k = record {
  name_token = k.name_token;
  name_some = k.name_some;
  value_text = All-append IsText h.value (c ∷ []) k.value_text (t, tt);
}

abbrev AllHeaders : Result (List Header) → Type 0
AllHeaders (ok hs) = All IsHeader hs
AllHeaders (err e) = Unit {0}

cons-AllHeaders :
    (x : Header) (r : Result (List Header))
    → IsHeader x
    → AllHeaders r
    → AllHeaders (r >>= λ hs. ok (x ∷ hs))
cons-AllHeaders x (ok hs) k a = (k, a)
cons-AllHeaders x (err e) k a = tt

update_back-AllHeaders :
    (f : Header → Header) (hs : List Header)
    → ((h : Header) → IsHeader h → IsHeader (f h))
    → All IsHeader hs
    → AllHeaders (update_back f hs)
unfolding update_back
update_back-AllHeaders f [] keep a = tt
update_back-AllHeaders f (x ∷ []) keep a = (keep x a.0, tt)
update_back-AllHeaders f (x ∷ y ∷ hs) keep a =
    cons-AllHeaders x (update_back f (y ∷ hs)) a.0 (update_back-AllHeaders f (y ∷ hs) keep a.1)

abbrev Cleans : Result Consumed → Type 0
Cleans (ok o) = IsClean o.state o.req
Cleans (err e) = Unit {0}

with_headers :
    (st : State) (req : Request) (r : Result (List Header))
    → Started st req
    → ((hs : List Header) → Started st (record req { headers = hs }))
    → All IsToken req.method
    → All IsUriByte req.uri
    → AllHeaders r
    → Cleans (r >>= λ hs. more st (record req { headers = hs }))
with_headers st req (err e) s0 s m u a = tt
with_headers st req (ok hs) s0 s m u a = record {
  method_token = m;
  method_some = s hs;
  uri_bytes = u;
  headers_fine = a;
}

module _ (req : Request) (c : ℕ) (some_method : req.method ≢ []) (m : All IsToken req.method)
    (u : All IsUriByte req.uri) (hs : All IsHeader req.headers) where
  add_value-Cleans : IsText c → Cleans (add_value req c)
  add_value-Cleans t =
      with_headers header_value req _ some_method (λ _. some_method) m u
        (update_back-AllHeaders (push_value c) req.headers (λ h. push_value-IsHeader c h t) hs)

  add_name-Cleans : IsToken c → Cleans (add_name req c)
  add_name-Cleans t =
      with_headers header_name req _ some_method (λ _. some_method) m u
        (update_back-AllHeaders (push_name c) req.headers (λ h. push_name-IsHeader c h t) hs)

  first_name-Cleans :
      IsToken c
      → Cleans (
          add_name
            (record req { headers = req.headers ++ (record { name = []; value = [] }) ∷ [] })
            c)
  first_name-Cleans t =
      let new : Header = record { name = []; value = [] } in
      rw (update_back-append (push_name c) req.headers new) (record {
        method_token = m;
        method_some = some_method;
        uri_bytes = u;
        headers_fine =
            All-append IsHeader req.headers _ hs
              (record { name_token = (t, tt); name_some = λ e. cc; value_text = tt }, tt);
      })

consume-Cleans : (st : State) (req : Request) (c : ℕ) → IsClean st req → Cleans (consume st req c)
unfolding consume
consume-Cleans method_start req c h =
    ground
      (arith, concat-ne-nil req.method c, All-append IsToken req.method (c ∷ []) h.method_token)
consume-Cleans method req c h =
    ground
      (arith, concat-ne-nil req.method c, All-append IsToken req.method (c ∷ []) h.method_token)
consume-Cleans uri req c h = ground (arith, All-append IsUriByte req.uri (c ∷ []) h.uri_bytes)
consume-Cleans header_line_start req c h =
    ground (arith, first_name-Cleans req c h.method_some h.method_token h.uri_bytes h.headers_fine)
consume-Cleans header_lws req c h =
    ground (arith, add_value-Cleans req c h.method_some h.method_token h.uri_bytes h.headers_fine)
consume-Cleans header_name req c h =
    ground (arith, add_name-Cleans req c h.method_some h.method_token h.uri_bytes h.headers_fine)
consume-Cleans header_value req c h =
    ground (arith, add_value-Cleans req c h.method_some h.method_token h.uri_bytes h.headers_fine)
consume-Cleans _ req c h = ground arith

abbrev EndsAs : ResultType → State → Type 0
EndsAs good st = st ≡ expecting_newline_3
EndsAs _ st = Unit {0}

abbrev Ends : Result Consumed → Type 0
Ends (ok o) = EndsAs o.result o.state
Ends (err e) = Unit {0}

-- A request is accepted in one state only.
consume-Ends : (st : State) (req : Request) (c : ℕ) → Ends (consume st req c)
unfolding consume
consume-Ends method_start req c = ground arith
consume-Ends _ req c = ground arith

abbrev Final : ResultType → State → Request → Type 0
Final r st req = IsClean st req × EndsAs r st

abbrev Finals : Result Parsed → Type 0
Finals (ok p) = Final p.result p.state p.req
Finals (err e) = Unit {0}

parse-Finals :
    (src : Bytes) (st : State) (req : Request) → IsClean st req → Finals (parse st req src)
unfolding parse
parse-Finals [] st req h = (h, tt)
parse-Finals (c ∷ cs) st req h =
    next (consume st req c) (consume-Cleans st req c h) (consume-Ends st req c) (parse-Finals cs)
  where
    by_result :
        (t : ResultType) (st' : State) (req' : Request)
        → IsClean st' req'
        → EndsAs t st'
        → ((q : State) (r : Request) → IsClean q r → Finals (parse q r cs))
        → Finals (elim t [
          | indeterminate ↦ parse st' req' cs
          | good ↦ ok (record { result = good; state = st'; req = req'; rest = cs })
          | bad ↦ ok (record { result = bad; state = st'; req = req'; rest = cs })
        ])
    by_result good st' req' k e ih = (k, e)
    by_result bad st' req' k e ih = (k, e)
    by_result indeterminate st' req' k e ih = ih st' req' k

    next :
        (r : Result Consumed)
        → Cleans r
        → Ends r
        → ((q : State) (r : Request) → IsClean q r → Finals (parse q r cs))
        → Finals (
            r >>= λ o. elim o.result [
              | indeterminate ↦ parse o.state o.req cs
              | good ↦ ok (record { result = good; state = o.state; req = o.req; rest = cs })
              | bad ↦ ok (record { result = bad; state = o.state; req = o.req; rest = cs })
            ])
    next (err f) k e ih = tt
    next (ok o) k e ih = by_result o.result o.state o.req k e ih

-- A request object as the connection makes it: no text yet, and the numbers as memory held them.
abbrev pub blank : ℕ → ℕ → Request
blank major minor = record {
  method = [];
  uri = [];
  http_version_major = major;
  http_version_minor = minor;
  headers = [];
}

-- Whatever bytes are accepted as a request from the start, the request is well formed.
pub parse-IsWellFormed :
    (major minor : ℕ) (src : Bytes) {p : Parsed}
    → parse method_start (blank major minor) src ≡ ok p
    → p.result ≡ good
    → IsWellFormed p.req
parse-IsWellFormed major minor src {p} e g =
    let (k, end) = rw e at (
      parse-Finals src method_start (blank major minor)
        (record { method_token = tt; method_some = tt; uri_bytes = tt; headers_fine = tt })) in
    record {
      method_token = k.method_token;
      method_some = rw (rw g at end) at k.method_some;
      uri_bytes = k.uri_bytes;
      headers_fine = k.headers_fine;
    }
