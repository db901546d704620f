-- ===== src/Http/Parser/Chunks.antt =====
-- HttpWrapper/src/request_parser.cpp: the parser is fed what each read delivers.
use reminder_suite.Prelude.{[], ◌∷◌, ◌++◌, ◌≡◌, refl}
use reminder_suite.Prelude.Fault.{Result, ok, err, ◌>>=◌}
use reminder_suite.Text.{Bytes}
use reminder_suite.Http.{Request}
use reminder_suite.Http.Parser.{
  State, ResultType, good, bad, indeterminate, Consumed, consume, Parsed, parse,
}

-- After one chunk: the parser goes on if it wants more, and leaves the next chunk if it does not.
abbrev pub resume_as : ResultType → Parsed → Bytes → Result Parsed
resume_as indeterminate p ys = parse p.state p.req ys
resume_as good p ys = ok (record p { rest = p.rest ++ ys })
resume_as bad p ys = ok (record p { rest = p.rest ++ ys })

abbrev pub resume : Parsed → Bytes → Result Parsed
resume p = resume_as p.result p

-- One round of the loop, on the byte's result.
abbrev round : ResultType → State → Request → Bytes → Result Parsed
round t st req cs = elim t [
  | indeterminate ↦ parse st req cs
  | good ↦ ok (record { result = good; state = st; req = req; rest = cs })
  | bad ↦ ok (record { result = bad; state = st; req = req; rest = cs })
]

round-append :
    (t : ResultType) (st : State) (req : Request) (xs ys : Bytes)
    → parse st req (xs ++ ys) ≡ (parse st req xs >>= λ p. resume p ys)
    → round t st req (xs ++ ys) ≡ (round t st req xs >>= λ p. resume p ys)
round-append good st req xs ys ih = refl
round-append bad st req xs ys ih = refl
round-append indeterminate st req xs ys ih = ih

rounds-append :
    (r : Result Consumed) (xs ys : Bytes)
    → ((st : State) (req : Request)
        → parse st req (xs ++ ys) ≡ (parse st req xs >>= λ p. resume p ys))
    → (r >>= λ o. round o.result o.state o.req (xs ++ ys))
      ≡ ((r >>= λ o. round o.result o.state o.req xs) >>= λ p. resume p ys)
rounds-append (ok o) xs ys ih = round-append o.result o.state o.req xs ys (ih o.state o.req)
rounds-append (err e) xs ys ih = refl

pub parse-append :
    (st : State) (req : Request) (xs ys : Bytes)
    → parse st req (xs ++ ys) ≡ (parse st req xs >>= λ p. resume p ys)
unfolding parse
parse-append st req [] ys = refl
parse-append st req (c ∷ cs) ys =
    rounds-append (consume st req c) cs ys (λ st' req'. parse-append st' req' cs ys)
