-- ===== src/Http/Server/Isolation.antt =====
-- HttpWrapper/src/server.cpp and connection.cpp: connections do not get in each other's way, where the
-- handler answers by the request alone.
use mathlib.Core.Path.{subst}
use reminder_suite.Prelude.{
  ℕ, ◌≡◌, ◌≢◌, List, [], ◌∷◌, some, get_elem?, refl, inl, inr, ◌==◌, Bool-cases, arith,
}
use reminder_suite.Prelude.Fault.{Result, ok, err, ◌>>=◌, Holds, bind-eq-ok}
use reminder_suite.Text.{Bytes}
use reminder_suite.Http.{Request}
use reminder_suite.Http.Parser.{ResultType, good, bad, indeterminate, Parsed, parse}
use reminder_suite.Http.Reply.{Reply}
use reminder_suite.Http.Connection.{
  Phase, reading, writing, idle, Connection, done, failed, aborted, on_result, on_parsed, on_read,
  feed, start, answering,
}
use reminder_suite.Http.Server.{
  HttpServer, Completion, accepted, signalled, received, written, left_by, on_completion,
  on_received, Runs,
}
use reminder_suite.Http.Parser.Syntax.{IsWellFormed, blank}
use reminder_suite.Http.Parser.Numbers.{IsVersion, number}
use reminder_suite.Http.Parser.RoundTrip.{print_request}
use reminder_suite.Http.Connection.Serving.{joined, served}
use reminder_suite.Http.Server.Peers.{
  chunks_of, IsCalm, get_elem?-set_self, HasPeer, foreign-HasPeer, resting,
}

-- A handler that keeps nothing.
abbrev pub answer_by :
    (Request → Reply → Reply) → Unit {0} → Request → Reply → Result (Unit {0} × Reply)
answer_by f u req rep = ok (u, f req rep)

module _ {S : Type 0} (handle : S → Request → Reply → Result (S × Reply)) where
  module _ (f : Request → Reply → Reply)
      (answers : (s : S) (req : Request) (rep : Reply)
        → (s' : S) × (handle s req rep ≡ ok (s', f req rep))) where
    -- The same connection is left.
    abbrev Alike : Result (Unit {0} × Connection) → Result (S × Connection) → Type 0
    Alike r (ok (s, c)) = r ≡ ok (tt, c)
    Alike r (err e) = Unit

    result-Alike :
        (s : S) (c : Connection) (t : ResultType)
        → Alike (on_result (answer_by f) tt c t) (on_result handle s c t)
    result-Alike s c good = let (s', e) = answers s c.request c.reply in rw e refl
    result-Alike s c bad = refl
    result-Alike s c indeterminate = refl

    read-Alike :
        (s : S) (c : Connection) (chunk : Bytes)
        → Alike (on_read (answer_by f) tt c (done chunk)) (on_read handle s c (done chunk))
    unfolding on_read
    read-Alike s c chunk = parsed_lem (parse c.parser_state c.request chunk)
      where
        parsed_lem :
            (r : Result Parsed)
            → Alike (r >>= on_parsed (answer_by f) tt c) (r >>= on_parsed handle s c)
        parsed_lem (ok p) =
            result-Alike s (record c { request = p.req; parser_state = p.state }) p.result
        parsed_lem (err e) = tt

    abbrev fed : List Bytes → Unit {0} × Connection → Result (Unit {0} × Connection)
    fed chunks r = elim r.1.phase [
      | reading ↦ feed (answer_by f) r.0 r.1 chunks
      | writing ↦ ok r
      | idle ↦ ok r
    ]

    feed-cons :
        (c : Connection) (chunk : Bytes) (chunks : List Bytes)
        → feed (answer_by f) tt c (chunk ∷ chunks)
          ≡ (on_read (answer_by f) tt c (done chunk) >>= fed chunks)
    unfolding feed
    feed-cons c chunk chunks = refl

    feed-nil : (c : Connection) → feed (answer_by f) tt c [] ≡ ok (tt, c)
    unfolding feed
    feed-nil c = refl

    -- A read of a connection, in the loop and alone.
    own_read :
        (server next : HttpServer S) (i : ℕ) (c : Connection) (chunk : Bytes)
        → HasPeer handle i (left_by c) server
        → on_completion handle server (received i (done chunk)) ≡ ok next
        → (c' : Connection) × (on_read (answer_by f) tt c (done chunk) ≡ ok (tt, c'))
          × HasPeer handle i (left_by c') next
    unfolding on_completion
    own_read server next i c chunk l e =
        let e' : on_received handle server i (done chunk) (some (left_by c)) ≡ ok next =
          rw l at e in
        let (x, e1, e2) = bind-eq-ok (on_read handle server.handled c (done chunk)) _ e' in
        (
          x.1,
          rw e1 at (read-Alike server.handled c chunk),
          subst (λ (r : Result (HttpServer S)). Holds (HasPeer handle i (left_by x.1)) r) e2
              (get_elem?-set_self server.peers i (left_by x.1) l),
        )

    onwards :
        (next server' : HttpServer S) (i : ℕ) (c c' : Connection) (es : List Completion)
        → Runs handle next es server'
        → IsCalm i es
        → HasPeer handle i (left_by c) next
        → (c.phase ≡ reading
            → feed (answer_by f) tt c (chunks_of i es) ≡ ok (tt, c')
            → HasPeer handle i (left_by c') server')
        → fed (chunks_of i es) (tt, c) ≡ ok (tt, c')
        → HasPeer handle i (left_by c') server'
    onwards next server' i c c' es r h l ih = by_phase c.phase refl
      where
        same_lem : ◌≡◌ {A = Result (Unit {0} × Connection)} (ok (tt, c)) (ok (tt, c')) → c ≡ c'
        same_lem e = cc

        at_rest : c.phase ≢ reading → c ≡ c' → HasPeer handle i (left_by c') server'
        at_rest still same =
            subst (λ t. HasPeer handle i (left_by t) server') same
              (resting handle next server' i (left_by c) es r h l still)

        by_phase :
            (ph : Phase)
            → c.phase ≡ ph
            → fed (chunks_of i es) (tt, c) ≡ ok (tt, c')
            → HasPeer handle i (left_by c') server'
        by_phase reading e fe = ih e (rw e at fe)
        by_phase writing e fe = at_rest (λ x. cc) (same_lem (rw e at fe))
        by_phase idle e fe = at_rest (λ x. cc) (same_lem (rw e at fe))

    reads_on :
        (server server' : HttpServer S) (i : ℕ) (c c' : Connection) (es : List Completion)
        → Runs handle server es server'
        → IsCalm i es
        → HasPeer handle i (left_by c) server
        → c.phase ≡ reading
        → feed (answer_by f) tt c (chunks_of i es) ≡ ok (tt, c')
        → HasPeer handle i (left_by c') server'
    reads_on server server' i c c' [] same h l r fe = ended (rw (feed-nil c) at fe)
      where
        ended :
            ◌≡◌ {A = Result (Unit {0} × Connection)} (ok (tt, c)) (ok (tt, c'))
            → HasPeer handle i (left_by c') server'
        ended e =
            let kept : c ≡ c' = cc in rw (← kept) (subst (HasPeer handle i (left_by c)) same l)
    reads_on server server' i c c' (received j (done chunk) ∷ es) (o, next, n, rest) h l r fe =
        elim (Bool-cases (j == i)) [
          | inr other ↦
              reads_on next server' i c c' es rest h
                (rw n at
                  (foreign-HasPeer handle server (received j (done chunk)) i (left_by c) other l))
                r (rw other at fe)
          | inl own ↦
              let same : j ≡ i = ground arith in
              let (c1, a, l1) = own_read server next i c chunk l (
                subst (λ k. on_completion handle server (received k (done chunk)) ≡ ok next) same
                  n) in
              let told : feed (answer_by f) tt c (chunk ∷ chunks_of i es) ≡ ok (tt, c') =
                rw own at fe in
              onwards next server' i c1 c' es rest h l1 (reads_on next server' i c1 c' es rest h l1)
                (rw (feed-cons c chunk (chunks_of i es), a) at told)
        ]
    reads_on server server' i c c' (received j failed ∷ es) (o, next, n, rest) h l r fe =
        reads_on next server' i c c' es rest h.1
          (rw n at (foreign-HasPeer handle server (received j failed) i (left_by c) h.0 l)) r fe
    reads_on server server' i c c' (received j aborted ∷ es) (o, next, n, rest) h l r fe =
        reads_on next server' i c c' es rest h.1
          (rw n at (foreign-HasPeer handle server (received j aborted) i (left_by c) h.0 l)) r fe
    reads_on server server' i c c' (written j outcome ∷ es) (o, next, n, rest) h l r fe =
        reads_on next server' i c c' es rest h.1
          (rw n at (foreign-HasPeer handle server (written j outcome) i (left_by c) h.0 l)) r fe
    reads_on server server' i c c' (accepted request reply fine ∷ es) (o, next, n, rest) h l r fe =
        reads_on next server' i c c' es rest h
          (rw n at (foreign-HasPeer handle server (accepted request reply fine) i (left_by c) tt l))
          r fe
    reads_on server server' i c c' (signalled ∷ es) x h l r fe = absurd h

    -- The handler answers by the request alone. A client of the running server sends a well-formed
    -- request, with version numbers clear of the largest `int`, in whatever pieces and with whatever
    -- behind it; other connections are begun, read, answered and closed in whatever order meanwhile,
    -- and the server is not stopped. Then its connection is in the set, and goes on to write the
    -- answer to its request.
    pub client_served :
        (server server' : HttpServer S) (i : ℕ) (es : List Completion) (req : Request)
        (major minor rest : Bytes) (a b : ℕ) (reply : Reply)
        → Runs handle server es server'
        → get_elem? server.peers i ≡ some (left_by (start (blank a b) reply))
        → IsCalm i es
        → IsWellFormed req
        → IsVersion major
        → IsVersion minor
        → number 0 major ≡ req.http_version_major
        → number 0 minor ≡ req.http_version_minor
        → joined (chunks_of i es) ≡ print_request req major minor rest
        → get_elem? server'.peers i ≡ some (left_by (answering req (f req reply)))
    client_served server server' i es req major minor rest a b reply r l calm w va vb ea eb sent =
        reads_on server server' i (start (blank a b) reply) (answering req (f req reply)) es r calm
          l refl
          (served (answer_by f) tt req major minor rest a b reply (chunks_of i es) w va vb ea eb
            sent)
