-- ===== src/Http/Parser/Safety.antt =====
-- HttpWrapper/src/request_parser.cpp: what can go wrong in the parser.
use reminder_suite.Prelude.{
  ℕ, ◌+◌, ◌*◌, ◌≤◌, List, [], ◌∷◌, ◌++◌, ◌≡◌, ◌≢◌, ◌⊎◌, inl, inr, refl, ap, arith,
}
use reminder_suite.Prelude.Fault.{Result, ok, err, undefined}
use reminder_suite.Text.{Bytes}
use reminder_suite.Http.{Request, Header}
use reminder_suite.Http.Parser.{
  State, http_version_major_start, http_version_major, http_version_minor_start, http_version_minor,
  header_line_start, header_lws, header_name, space_before_header_value, header_value, ResultType,
  good, bad, indeterminate, Consumed, consume, Parsed, parse, int_limit, update_back, push_name,
  push_value,
}

-- The states that write to the last header have one.
abbrev pub HasHeader : State → Request → Type 0
HasHeader header_lws req = req.headers ≢ []
HasHeader header_name req = req.headers ≢ []
HasHeader space_before_header_value req = req.headers ≢ []
HasHeader header_value req = req.headers ≢ []
HasHeader _ req = Unit {0}

-- The next byte takes a version number past an `int`.
abbrev pub Overflows : State → Request → ℕ → Type 0
Overflows http_version_major_start req c = int_limit ≤ req.http_version_major * 10 + c
Overflows http_version_major req c = int_limit ≤ req.http_version_major * 10 + c
Overflows http_version_minor_start req c = int_limit ≤ req.http_version_minor * 10 + c
Overflows http_version_minor req c = int_limit ≤ req.http_version_minor * 10 + c
Overflows _ req c = ⊥

update_back-total :
    (f : Header → Header) (hs : List Header)
    → hs ≢ []
    → (ks : List Header) × (update_back f hs ≡ ok ks) × (ks ≢ [])
unfolding update_back
update_back-total f [] h = absurd (h refl)
update_back-total f (x ∷ []) h = (f x ∷ [], refl, λ e. cc)
update_back-total f (x ∷ y ∷ hs) h =
    let (ks, e, n) = update_back-total f (y ∷ hs) (λ e. cc) in rw e (x ∷ ks, refl, λ e. cc)

abbrev Steps : State → Request → ℕ → Result Consumed → Type 0
Steps st req c (ok o) = HasHeader o.state o.req
Steps st req c (err e) = (e ≡ undefined) × Overflows st req c

concat-ne-nil : (hs : List Header) (h : Header) → hs ++ h ∷ [] ≢ []
concat-ne-nil [] h e = cc
concat-ne-nil (x ∷ xs) h e = cc

consume-Steps :
    (st : State) (req : Request) (c : ℕ) → HasHeader st req → Steps st req c (consume st req c)
unfolding consume
consume-Steps header_line_start req c h =
    let new : Header = record { name = []; value = [] } in
    let (ks, e, n) =
      update_back-total (push_name c) (req.headers ++ new ∷ []) (concat-ne-nil req.headers new) in
    ground arith
consume-Steps header_lws req c h =
    let (ks, e, n) = update_back-total (push_value c) req.headers h in ground arith
consume-Steps header_name req c h =
    let (ks, e, n) = update_back-total (push_name c) req.headers h in ground arith
consume-Steps header_value req c h =
    let (ks, e, n) = update_back-total (push_value c) req.headers h in ground arith
consume-Steps _ req c h = ground arith

-- The input up to a byte that does not fit: there the parser is in a version number.
pub record OverflowsAt (st : State) (req : Request) (src : Bytes) : Type 0 where
  pub read : Bytes
  pub byte : ℕ
  pub unread : Bytes
  pub splits : src ≡ read ++ (byte ∷ unread)
  pub last : State
  pub last_req : Request
  pub reads :
      parse st req read
      ≡ ok (record { result = indeterminate; state = last; req = last_req; rest = [] })
  pub overflows : Overflows last last_req byte

abbrev IsDecided : State → Request → Bytes → Type 0
IsDecided st req src =
    ((p : Parsed) × (parse st req src ≡ ok p) × HasHeader p.state p.req)
    ⊎ ((parse st req src ≡ err undefined) × OverflowsAt st req src)

OverflowsAt-here :
    (st : State) (req : Request) (c : ℕ) (cs : Bytes)
    → Overflows st req c
    → OverflowsAt st req (c ∷ cs)
unfolding parse
OverflowsAt-here st req c cs h = record {
  read = [];
  byte = c;
  unread = cs;
  splits = refl;
  last = st;
  last_req = req;
  reads = refl;
  overflows = h;
}

module _ (st : State) (req : Request) (c : ℕ) (cs : Bytes) where
  OverflowsAt-cons :
      (o : Consumed)
      → consume st req c ≡ ok o
      → o.result ≡ indeterminate
      → OverflowsAt o.state o.req cs
      → OverflowsAt st req (c ∷ cs)
  unfolding parse
  OverflowsAt-cons o e i f = record {
    read = c ∷ f.read;
    byte = f.byte;
    unread = f.unread;
    splits = ap (◌∷◌ c) f.splits;
    last = f.last;
    last_req = f.last_req;
    reads = rw (e, i) f.reads;
    overflows = f.overflows;
  }

  round_outcome :
      (o : Consumed) (t : ResultType)
      → consume st req c ≡ ok o
      → o.result ≡ t
      → HasHeader o.state o.req
      → IsDecided o.state o.req cs
      → IsDecided st req (c ∷ cs)
  unfolding parse
  round_outcome o good e i h d =
      inl (record { result = good; state = o.state; req = o.req; rest = cs }, rw (e, i), h)
  round_outcome o bad e i h d =
      inl (record { result = bad; state = o.state; req = o.req; rest = cs }, rw (e, i), h)
  round_outcome o indeterminate e i h (inl (p, q, hp)) = inl (p, rw (e, i) q, hp)
  round_outcome o indeterminate e i h (inr (q, f)) = inr (rw (e, i) q, OverflowsAt-cons o e i f)

  step_outcome :
      (r : Result Consumed)
      → consume st req c ≡ r
      → Steps st req c r
      → ((o : Consumed) → HasHeader o.state o.req → IsDecided o.state o.req cs)
      → IsDecided st req (c ∷ cs)
  unfolding parse
  step_outcome (ok o) e h ih = round_outcome o o.result e refl h (ih o h)
  step_outcome (err f) e h ih = inr (rw (e, h.0), OverflowsAt-here st req c cs h.1)

-- From a state whose header is there, whatever the bytes: the parser returns, and the header is
-- there in the state that it leaves, so the next call may go on; or the input has a byte at which
-- a version number exceeds an `int`, and the behaviour is undefined.
pub parse_outcome :
    (st : State) (req : Request) (src : Bytes)
    → HasHeader st req
    → ((p : Parsed) × (parse st req src ≡ ok p) × HasHeader p.state p.req)
      ⊎ ((parse st req src ≡ err undefined) × OverflowsAt st req src)
unfolding parse
parse_outcome st req [] h = inl (_, refl, h)
parse_outcome st req (c ∷ cs) h =
    step_outcome st req c cs (consume st req c) refl (consume-Steps st req c h)
      (λ o ho. parse_outcome o.state o.req cs ho)
