-- ===== src/Server/Interleaving.antt =====
-- Server/src/server.cpp and session.cpp: the requests of several clients, in the order in which the
-- event loop completes them.
use reminder_suite.Prelude.{
  ℕ, zero, suc, Bool, true, false, ◌&&◌, List, [], ◌∷◌, ◌++◌, none, some, length, length-append,
  length-set, get_elem?, set, ltb, inl, inr, ◌⊎◌, if◌then◌else◌, ◌≡◌, refl, ap, ◌∙◌, arith,
}
use reminder_suite.Prelude.Fault.{Result, ok, err, ◌>>=◌}
use reminder_suite.Text.{Bytes}
use reminder_suite.Provider.{DbLibrary}
use reminder_suite.Session.{parse_request, converse}
use reminder_suite.Server.{Server, Event, accepted, signalled, received, on_accept, run}

-- The requests that are read, of the clients that were accepted by then.
abbrev pub arrivals : ℕ → Bool → List Event → List Bytes
arrivals n accepting [] = []
arrivals n accepting (accepted fine ∷ es) =
    arrivals (if accepting && fine then suc n else n) accepting es
arrivals n accepting (signalled ∷ es) = arrivals n false es
arrivals n accepting (received i request ∷ es) =
    let rest = arrivals n accepting es in if ltb i n then request ∷ rest else rest

get_elem?-cases :
    (xs : List Bytes) (i : ℕ)
    → ((get_elem? xs i ≡ none) × (ltb i (length xs) ≡ false))
      ⊎ ((x : Bytes) × (get_elem? xs i ≡ some x) × (ltb i (length xs) ≡ true))
get_elem?-cases [] i = inl (refl, ground arith)
get_elem?-cases (x ∷ xs) zero = inr (x, refl, ground arith)
get_elem?-cases (x ∷ xs) (suc i) = elim (get_elem?-cases xs i) [
  | inl (e, l) ↦ inl (e, ground arith)
  | inr (y, e, l) ↦ inr (y, e, ground arith)
]

module _ {S : Type 0} (ops : DbLibrary S) where
  abbrev pub provided : Result (Server S × List Bytes) → Result (S × List Bytes)
  provided (ok (server, texts)) = ok (server.provider, texts)
  provided (err fault) = err fault

  silent :
      (server : Server S) (r : Result (Server S × List Bytes))
      → provided (r >>= λ x. ok (x.0, [] ++ x.1)) ≡ provided r
  silent server (ok x) = refl
  silent server (err fault) = refl

  -- The buffer of the last answer does not matter.
  converse-same :
      (s : S) (response response' : Bytes) (requests : List Bytes)
      → converse ops s response requests ≡ converse ops s response' requests
  unfolding converse parse_request
  converse-same s response response' [] = refl
  converse-same s response response' (request ∷ requests) = refl

  Linear : Server S → List Event → Type 0
  Linear server es =
      provided (run ops server es)
      ≡ converse ops server.provider [] (arrivals (length server.responses) server.accepting es)

  accept-step :
      (server : Server S) (a fine : Bool) (es : List Event)
      → Linear (on_accept server a fine) es
      → provided (run ops (on_accept server a fine) es)
        ≡ converse ops server.provider [] (
            arrivals
              (if a && fine then suc (length server.responses) else length server.responses)
              server.accepting
              es)
  unfolding Linear
  accept-step server false fine es ih = ih
  accept-step server true false es ih = ih
  accept-step server true true es ih =
      ih
      ∙ ap (λ n. converse ops server.provider [] (arrivals n server.accepting es))
          (length-append server.responses ([] ∷ []) ∙ omega arith)

  abbrev stored : Server S → ℕ → S × Bytes → Server S × List Bytes
  stored server i x =
      (record server { provider = x.0; responses = set server.responses i x.1 }, x.1 ∷ [])

  abbrev onwards : List Event → Server S × List Bytes → Result (Server S × List Bytes)
  onwards es y = run ops y.0 es >>= λ z. ok (z.0, y.1 ++ z.1)

  abbrev behind : Bytes → S × List Bytes → Result (S × List Bytes)
  behind text z = ok (z.0, text ∷ z.1)

  told :
      (text : Bytes) (r : Result (Server S × List Bytes))
      → provided (r >>= λ z. ok (z.0, text ∷ z.1)) ≡ (provided r >>= behind text)
  told text (ok z) = refl
  told text (err fault) = refl

  answered-step :
      (server : Server S) (i : ℕ) (r : Result (S × Bytes)) (es : List Event)
      → ((x : S × Bytes) → Linear (stored server i x).0 es)
      → provided ((r >>= λ x. ok (stored server i x)) >>= onwards es) ≡ (
          r >>= λ x.
          (converse ops x.0 x.1 (arrivals (length server.responses) server.accepting es)
            >>= behind x.1))
  unfolding Linear
  answered-step server i (err fault) es ih = refl
  answered-step server i (ok (s, text)) es ih =
      let rest = λ (n : ℕ). arrivals n server.accepting es in
      told text (run ops (stored server i (s, text)).0 es)
      ∙ ap (λ r. r >>= behind text)
          (ih (s, text)
            ∙ ap (λ n. converse ops s [] (rest n)) (length-set server.responses i text)
            ∙ converse-same s [] text (rest (length server.responses)))

  request-same :
      (s : S) (response response' request : Bytes)
      → parse_request ops s response request ≡ parse_request ops s response' request
  unfolding parse_request
  request-same s response response' request = refl

  -- Whatever clients are accepted, and in whatever order their requests are read: the provider ends
  -- as it does in one conversation with the requests in that order, and the answers are the same, one
  -- by one, faults included.
  pub run-converse :
      (server : Server S) (events : List Event)
      → provided (run ops server events)
        ≡ converse ops server.provider []
            (arrivals (length server.responses) server.accepting events)
  unfolding run converse Linear
  run-converse server [] = refl
  run-converse server (accepted fine ∷ es) =
      silent (on_accept server server.accepting fine)
        (run ops (on_accept server server.accepting fine) es)
      ∙ accept-step server server.accepting fine es
          (run-converse (on_accept server server.accepting fine) es)
  run-converse server (signalled ∷ es) =
      silent (record server { accepting = false })
        (run ops (record server { accepting = false }) es)
      ∙ run-converse (record server { accepting = false }) es
  run-converse server (received i request ∷ es) = elim (get_elem?-cases server.responses i) [
    | inl (e, l) ↦ rw (e, l) (silent server (run ops server es) ∙ run-converse server es)
    | inr (response, e, l) ↦
        rw (e, l)
          (ap (λ r. provided ((r >>= λ x. ok (stored server i x)) >>= onwards es))
              (request-same server.provider response [] request)
            ∙ answered-step server i (parse_request ops server.provider [] request) es
                (λ x. run-converse (stored server i x).0 es))
  ]
