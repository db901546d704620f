-- ===== src/Http/Connection/Lifetime.antt =====
-- HttpWrapper/src/connection.cpp, connection_manager.cpp and server.cpp: what can happen to a
-- connection, as a step relation, and what holds of it whenever the event loop runs.
use reminder_suite.Prelude.{Bool, ◌∙◌, true, false, inl, inr, ◌≡◌, ◌≢◌, refl}
use reminder_suite.Prelude.Fault.{Result, ok, err, ◌>>=◌}
use reminder_suite.Text.{Bytes}
use reminder_suite.Http.{Request}
use reminder_suite.Http.Parser.{Parsed, parse, ResultType, good, bad, indeterminate}
use reminder_suite.Http.Parser.Safety.{HasHeader, parse_outcome}
use reminder_suite.Http.Reply.{Reply}
use reminder_suite.Http.Connection.{
  reading, writing, idle, Connection, start, stop, stop_all, replied, done, failed, aborted,
  on_write, on_parsed, on_result, on_read,
}

-- A connection in the manager's set has an operation under way, so it will be heard of again; and
-- the parser is in a state that it can go on from.
pub record IsSound (c : Connection) : Type 0 where
  pub pending : c.managed ≡ true → c.phase ≢ idle
  pub header : HasHeader c.parser_state c.request

module _ {S : Type 0} (handle : S → Request → Reply → Result (S × Reply)) where
  -- A completion handler runs for the operation that is under way. The operation is aborted only
  -- when the socket was closed under it, which the manager does as it lets the connection go.
  pub data Step (s : S) (c : Connection) : S → Connection → Type 0 where
    read_done :
        (chunk : Bytes) {s' : S} {c' : Connection}
        → c.phase ≡ reading
        → on_read handle s c (done chunk) ≡ ok (s', c')
        → Step s c s' c'
    read_failed :
        {s' : S} {c' : Connection}
        → c.phase ≡ reading
        → on_read handle s c failed ≡ ok (s', c')
        → Step s c s' c'
    read_aborted :
        {s' : S} {c' : Connection}
        → c.phase ≡ reading
        → c.managed ≡ false
        → on_read handle s c aborted ≡ ok (s', c')
        → Step s c s' c'
    write_done : c.phase ≡ writing → Step s c s (on_write c (done tt))
    write_failed : c.phase ≡ writing → Step s c s (on_write c failed)
    write_aborted : c.phase ≡ writing → c.managed ≡ false → Step s c s (on_write c aborted)
    server_stops : c.managed ≡ true → Step s c s (stop_all c)

  pub data Reach (s : S) (c : Connection) : S → Connection → Type 0 where
    here : Reach s c s c
    further :
        {s' s'' : S} {c' c'' : Connection}
        → Reach s c s' c'
        → Step s' c' s'' c''
        → Reach s c s'' c''

  abbrev Sound : Result (S × Connection) → Type 0
  Sound (ok (s, c)) = IsSound c
  Sound (err e) = Unit

  released : (c : Connection) → HasHeader c.parser_state c.request → c.managed ≡ false → IsSound c
  released c h out = record { pending = λ m. cc; header = h }

  handled-Sound :
      (c : Connection) (r : Result (S × Reply))
      → HasHeader c.parser_state c.request
      → Sound (r >>= λ a. ok (replied handle c a))
  handled-Sound c (ok a) h = record { pending = λ m e. cc; header = h }
  handled-Sound c (err e) h = tt

  result-Sound :
      (s : S) (c : Connection) (t : ResultType)
      → HasHeader c.parser_state c.request
      → Sound (on_result handle s c t)
  result-Sound s c good h = handled-Sound c (handle s c.request c.reply) h
  result-Sound s c bad h = record { pending = λ m e. cc; header = h }
  result-Sound s c indeterminate h = record { pending = λ m e. cc; header = h }

  read-Sound :
      (s : S) (c : Connection) (chunk : Bytes)
      → HasHeader c.parser_state c.request
      → Sound (on_read handle s c (done chunk))
  unfolding on_read
  read-Sound s c chunk h = elim (parse_outcome c.parser_state c.request chunk h) [
    | inl (p, e, k) ↦
        rw e (result-Sound s (record c { request = p.req; parser_state = p.state }) p.result k)
    | inr (e, o) ↦ rw e tt
  ]

  failed-Sound :
      (s : S) (c : Connection)
      → HasHeader c.parser_state c.request
      → Sound (on_read handle s c failed)
  unfolding on_read
  failed-Sound s c h = released (stop c) h refl

  aborted-Sound :
      (s : S) (c : Connection)
      → HasHeader c.parser_state c.request
      → c.managed ≡ false
      → Sound (on_read handle s c aborted)
  unfolding on_read
  aborted-Sound s c h m = released (record c { phase = idle }) h m

  pub Step-IsSound : {s s' : S} {c c' : Connection} → Step s c s' c' → IsSound c → IsSound c'
  unfolding on_write
  Step-IsSound {s} {c = c} (read_done chunk p e) h = rw e at (read-Sound s c chunk h.header)
  Step-IsSound {s} {c = c} (read_failed p e) h = rw e at (failed-Sound s c h.header)
  Step-IsSound {s} {c = c} (read_aborted p m e) h = rw e at (aborted-Sound s c h.header m)
  Step-IsSound {c = c} (write_done p) h = released (stop c) h.header refl
  Step-IsSound {c = c} (write_failed p) h = released (stop c) h.header refl
  Step-IsSound {c = c} (write_aborted p m) h = released (record c { phase = idle }) h.header m
  Step-IsSound {c = c} (server_stops m) h = released (stop_all c) h.header refl

  -- What a completed read leaves is managed as the connection was.
  abbrev KeepsManaged : Bool → Result (S × Connection) → Type 0
  KeepsManaged m (ok (s, c)) = c.managed ≡ m
  KeepsManaged m (err f) = Unit

  result-KeepsManaged :
      (s : S) (c : Connection) (t : ResultType) → KeepsManaged c.managed (on_result handle s c t)
  result-KeepsManaged s c good = handled_lem (handle s c.request c.reply)
    where
      handled_lem :
          (r : Result (S × Reply)) → KeepsManaged c.managed (r >>= λ a. ok (replied handle c a))
      handled_lem (ok a) = refl
      handled_lem (err f) = tt
  result-KeepsManaged s c bad = refl
  result-KeepsManaged s c indeterminate = refl

  read-KeepsManaged :
      (s : S) (c : Connection) (chunk : Bytes)
      → KeepsManaged c.managed (on_read handle s c (done chunk))
  unfolding on_read
  read-KeepsManaged s c chunk = parsed_lem (parse c.parser_state c.request chunk)
    where
      parsed_lem : (r : Result Parsed) → KeepsManaged c.managed (r >>= on_parsed handle s c)
      parsed_lem (ok p) =
          result-KeepsManaged s (record c { request = p.req; parser_state = p.state }) p.result
      parsed_lem (err f) = tt

  -- No handler of a connection puts it back into the set.
  pub Step-IsReleased :
      {s s' : S} {c c' : Connection} → Step s c s' c' → c.managed ≡ false → c'.managed ≡ false
  unfolding on_read on_write
  Step-IsReleased {s} {c = c} (read_done chunk p e) m = (rw e at (read-KeepsManaged s c chunk)) ∙ m
  Step-IsReleased (read_failed p e) m = cc
  Step-IsReleased (read_aborted p m' e) m = cc
  Step-IsReleased (write_done p) m = refl
  Step-IsReleased (write_failed p) m = refl
  Step-IsReleased (write_aborted p m') m = m
  Step-IsReleased (server_stops m') m = refl

  -- Whatever happens to a connection after the manager started it, in any order: as long as it is in
  -- the manager's set, a read or a write is under way, and its parser can go on from where it is.
  pub Reach-IsSound :
      (s : S) (request : Request) (reply : Reply) {s' : S} {c' : Connection}
      → Reach s (start request reply) s' c'
      → IsSound c'
  Reach-IsSound s request reply here = record { pending = λ m e. cc; header = tt }
  Reach-IsSound s request reply (further r st) = Step-IsSound st (Reach-IsSound s request reply r)
