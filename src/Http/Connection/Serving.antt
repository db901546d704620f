-- ===== src/Http/Connection/Serving.antt =====
-- HttpWrapper/src/connection.cpp: what a client that sends a request in pieces is served.
use reminder_suite.Prelude.{ℕ, true, List, [], ◌∷◌, ◌++◌, ◌≡◌, ◌∙◌, refl}
use reminder_suite.Prelude.Fault.{Result, ok, err, ◌>>=◌}
use reminder_suite.Text.{Bytes}
use reminder_suite.Http.{Request}
use reminder_suite.Http.Parser.{
  expecting_newline_3, State, ResultType, good, bad, indeterminate, Parsed, parse,
}
use reminder_suite.Http.Parser.Chunks.{resume, resume_as, parse-append}
use reminder_suite.Http.Parser.Syntax.{IsWellFormed, blank}
use reminder_suite.Http.Parser.Numbers.{IsVersion, number}
use reminder_suite.Http.Parser.RoundTrip.{print_request, parse-print_request}
use reminder_suite.Http.Reply.{Reply}
use reminder_suite.Http.Connection.{
  reading, writing, idle, Connection, start, done, replied, on_parsed, on_read, feed,
}

abbrev pub joined : List Bytes → Bytes
joined [] = []
joined (chunk ∷ chunks) = chunk ++ joined chunks

abbrev waiting : Connection → Connection
waiting c = record c { phase = reading }

module _ {S : Type 0} (handle : S → Request → Reply → Result (S × Reply)) where
  abbrev next : List Bytes → S × Connection → Result (S × Connection)
  next chunks r = elim r.1.phase [
    | reading ↦ feed handle r.0 r.1 chunks
    | writing ↦ ok r
    | idle ↦ ok r
  ]

  handled-next :
      (c : Connection) (h : Result (S × Reply)) (chunks : List Bytes)
      → ((h >>= λ r. ok (replied handle c r)) >>= next chunks)
        ≡ (h >>= λ r. ok (replied handle c r))
  handled-next c (ok r) chunks = refl
  handled-next c (err e) chunks = refl

  resumed :
      (s : S) (c : Connection) (t : ResultType) (st : State) (req : Request) (rest : Bytes)
      (chunks : List Bytes)
      → feed handle s (waiting (record c { request = req; parser_state = st })) chunks
        ≡ on_read handle s
            (waiting (record c { request = req; parser_state = st }))
            (done (joined chunks))
      → (on_parsed handle s (waiting c) (record { result = t; state = st; req = req; rest = rest })
          >>= next chunks)
        ≡ (resume_as t (record { result = t; state = st; req = req; rest = rest }) (joined chunks)
            >>= on_parsed handle s (waiting c))
  unfolding on_read
  resumed s c good st req rest chunks ih =
      handled-next (waiting (record c { request = req; parser_state = st })) (handle s req c.reply)
        chunks
  resumed s c bad st req rest chunks ih = refl
  resumed s c indeterminate st req rest chunks ih = ih

  parsed_next :
      (s : S) (c : Connection) (r : Result Parsed) (chunks : List Bytes)
      → ((st : State) (req : Request)
          → feed handle s (waiting (record c { request = req; parser_state = st })) chunks
            ≡ on_read handle s
                (waiting (record c { request = req; parser_state = st }))
                (done (joined chunks)))
      → ((r >>= on_parsed handle s (waiting c)) >>= next chunks)
        ≡ ((r >>= λ p. resume p (joined chunks)) >>= on_parsed handle s (waiting c))
  parsed_next s c (ok p) chunks ih =
      resumed s c p.result p.state p.req p.rest chunks (ih p.state p.req)
  parsed_next s c (err e) chunks ih = refl

  -- Where a client's bytes are cut makes no difference: while a connection reads, chunks leave it,
  -- and what the handler keeps, as one read of all of them does, faults included.
  pub feed-joined :
      (s : S) (c : Connection) (chunks : List Bytes)
      → feed handle s (record c { phase = reading }) chunks
        ≡ on_read handle s (record c { phase = reading }) (done (joined chunks))
  unfolding feed on_read
  feed-joined s c [] = unfold parse in refl
  feed-joined s c (chunk ∷ chunks) =
      parsed_next s c (parse c.parser_state c.request chunk) chunks
        (λ st req. feed-joined s (record c { request = req; parser_state = st }) chunks)
      ∙ rw (parse-append c.parser_state c.request chunk (joined chunks)) refl

  -- A client that sends a well-formed request, with version numbers that are printed with digits and
  -- stay clear of the largest `int`, in whatever pieces and with whatever behind it: the handler is
  -- called once, on that request, and its reply is what the connection goes on to write.
  pub served :
      (s : S) (req : Request) (major minor rest : Bytes) (a b : ℕ) (reply : Reply)
      (chunks : List Bytes)
      → IsWellFormed req
      → IsVersion major
      → IsVersion minor
      → number 0 major ≡ req.http_version_major
      → number 0 minor ≡ req.http_version_minor
      → joined chunks ≡ print_request req major minor rest
      → feed handle s (start (blank a b) reply) chunks ≡ (
          handle s req reply >>= λ r. ok (
            r.0,
            record {
              request = req;
              parser_state = expecting_newline_3;
              reply = r.1;
              phase = writing;
              managed = true;
            },
          ))
  unfolding on_read
  served s req major minor rest a b reply chunks w va vb ea eb sent =
      feed-joined s (start (blank a b) reply) chunks
      ∙ rw (sent, parse-print_request req major minor rest a b w va vb ea eb)
