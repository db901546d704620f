-- ===== src/Http/Handler/Files.antt =====
-- HttpWrapper/src/request_handler.cpp: which files a request can reach.
use reminder_suite.Prelude.{
  ℕ, true, false, [], ◌∷◌, ◌++◌, Option, none, some, Bool-cases, inl, inr, ◌≡◌, ◌∙◌, refl, ap,
  arith,
}
use reminder_suite.Prelude.Fault.{Result, ok}
use reminder_suite.Text.{Bytes, bytes, Free, c_str}
use reminder_suite.Http.{Request}
use reminder_suite.Http.Url.{url_decode}
use reminder_suite.Http.Rdb.{is_rdb_call}
use reminder_suite.Http.Reply.{Reply}
use reminder_suite.Http.Handler.{
  has_dotdot, starts_with_slash, ends_with_slash, with_index, serve_file, serve_rdb, serve_decoded,
  handle_request,
}

-- The root followed by an absolute path that holds no "..".
pub record IsInside (root path : Bytes) : Type 0 where
  pub below : Bytes
  pub splits : path ≡ root ++ below
  pub absolute : starts_with_slash below ≡ true
  pub no_dotdot : has_dotdot below ≡ false

has_dotdot-append :
    (s : Bytes) (c : ℕ) (t : Bytes)
    → ends_with_slash s ≡ true
    → has_dotdot s ≡ false
    → has_dotdot (s ++ (c ∷ t)) ≡ has_dotdot (c ∷ t)
unfolding has_dotdot ends_with_slash
has_dotdot-append [] c t e h = cc
has_dotdot-append (a ∷ []) c t e h = ground arith
has_dotdot-append (a ∷ b ∷ s) c t e h = ground (arith, has_dotdot-append (b ∷ s) c t)

starts_with_slash-append :
    (s t : Bytes) → starts_with_slash s ≡ true → starts_with_slash (s ++ t) ≡ true
starts_with_slash-append [] t h = cc
starts_with_slash-append (c ∷ s) t h = h

with_index-has_dotdot : (s : Bytes) → has_dotdot s ≡ false → has_dotdot (with_index s) ≡ false
unfolding with_index
with_index-has_dotdot s h = elim (Bool-cases (ends_with_slash s)) [
  | inl e ↦ rw e (has_dotdot-append s b'i' (bytes "ndex.html") e h ∙ (unfold has_dotdot in refl))
  | inr n ↦ rw n h
]

with_index-starts_with_slash :
    (s : Bytes) → starts_with_slash s ≡ true → starts_with_slash (with_index s) ≡ true
unfolding with_index
with_index-starts_with_slash s h = elim (Bool-cases (ends_with_slash s)) [
  | inl e ↦ rw e (starts_with_slash-append s (bytes "index.html") h)
  | inr n ↦ rw n h
]

c_str-append : (root s : Bytes) → Free 0 root → c_str (root ++ s) ≡ root ++ c_str s
unfolding c_str
c_str-append [] s h = refl
c_str-append (c ∷ cs) s h = ground (arith, c_str-append cs s h.1)

c_str-starts_with_slash :
    (s : Bytes) → starts_with_slash s ≡ true → starts_with_slash (c_str s) ≡ true
unfolding c_str
c_str-starts_with_slash [] h = cc
c_str-starts_with_slash (c ∷ cs) h = ground arith

c_str-has_dotdot : (s : Bytes) → has_dotdot s ≡ false → has_dotdot (c_str s) ≡ false
unfolding has_dotdot c_str
c_str-has_dotdot [] h = refl
c_str-has_dotdot (a ∷ []) h = ground arith
c_str-has_dotdot (a ∷ b ∷ cs) h = ground (arith, c_str-has_dotdot (b ∷ cs))

opened-IsInside :
    (root s : Bytes)
    → Free 0 root
    → starts_with_slash s ≡ true
    → has_dotdot s ≡ false
    → IsInside root (c_str (root ++ with_index s))
opened-IsInside root s f a d = record {
  below = c_str (with_index s);
  splits = c_str-append root (with_index s) f;
  absolute = c_str-starts_with_slash (with_index s) (with_index-starts_with_slash s a);
  no_dotdot = c_str-has_dotdot (with_index s) (with_index-has_dotdot s d);
}

module _ {S : Type 0} (open_file open_file' : Bytes → Option Bytes)
    (parse_call : S → Bytes → Result (S × Option Bytes)) (doc_root : Bytes)
    (rooted : Free 0 doc_root)
    (same : (p : Bytes) → IsInside doc_root p → open_file p ≡ open_file' p) (s : S)
    (rep : Reply) where
  serve_file-same :
      (path : Bytes)
      → starts_with_slash path ≡ true
      → has_dotdot path ≡ false
      → serve_file open_file parse_call doc_root rep path
        ≡ serve_file open_file' parse_call doc_root rep path
  unfolding serve_file
  serve_file-same path a d = rw (same _ (opened-IsInside doc_root path rooted a d)) refl

  serve_decoded-same :
      (o : Option Bytes)
      → serve_decoded open_file parse_call doc_root s rep o
        ≡ serve_decoded open_file' parse_call doc_root s rep o
  unfolding serve_rdb
  serve_decoded-same none = refl
  serve_decoded-same (some path) = elim (Bool-cases (starts_with_slash path)) [
    | inr n ↦ rw n refl
    | inl a ↦ elim (Bool-cases (has_dotdot path)) [
      | inl y ↦ rw (a, y) refl
      | inr d ↦ elim (Bool-cases (is_rdb_call path)) [
        | inl c ↦ rw (a, d, c) refl
        | inr n ↦ rw (a, d, n) (ap (λ r. ok (s, r)) (serve_file-same path a d))
      ]
    ]
  ]

  -- A reply depends on no file but those inside the root: two file systems that agree on every
  -- path made of the root and an absolute path with no ".." give every request the same reply.
  pub handle_request_inside :
      (req : Request)
      → handle_request open_file parse_call doc_root s req rep
        ≡ handle_request open_file' parse_call doc_root s req rep
  unfolding handle_request
  handle_request_inside req = serve_decoded-same (url_decode req.uri)
