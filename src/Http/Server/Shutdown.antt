-- ===== src/Http/Server/Shutdown.antt =====
-- HttpWrapper/src/server.cpp: once a signal closed the acceptor, the event loop comes to its end.
use mathlib.Core.Path.{subst}
use reminder_suite.Prelude.{
  ℕ, ◌+◌, ◌*◌, ◌≤◌, ◌<◌, ◌≡◌, ◌⊎◌, inl, inr, Bool, Bool-cases, true, false, List, [], ◌∷◌, some,
  length, length-set, set, get_elem?, refl, ◌∙◌, arith, if◌then◌else◌,
}
use reminder_suite.Prelude.Fault.{Result, ok, err, ◌>>=◌}
use reminder_suite.Text.{Bytes}
use reminder_suite.Http.{Request}
use reminder_suite.Http.Parser.Syntax.{blank}
use reminder_suite.Http.Reply.{Reply, bad_request, stock_reply}
use reminder_suite.Http.Connection.{
  reading, writing, idle, Connection, stop, Outcome, done, failed, aborted, on_read, on_write,
}
use reminder_suite.Http.Server.{
  Peer, HttpServer, Completion, accepted, signalled, received, written, left_by, listening,
  on_accepted, on_received, on_written, on_completion, MayEnd, Occurs, Runs,
}
use reminder_suite.Http.Server.Invariant.{
  IsReleased, IsSteady, All-get_elem?, received-Step, completion-Steady, Runs-Steady, Runs-IsSteady,
}
use reminder_suite.Http.Connection.Lifetime.{Step-IsReleased}
use reminder_suite.Http.Server.Outstanding.{
  weight_of, weight, total, weight_late, total-le, total-set, outstanding, Busy, total-cases,
}

module _ {S : Type 0} (handle : S → Request → Reply → Result (S × Reply)) where
  received-lighter :
      (s : S) (p : Peer) (outcome : Outcome Bytes) {s' : S} {c : Connection}
      → p.connection.phase ≡ reading
      → MayEnd p outcome
      → p.connection.managed ≡ false
      → on_read handle s p.connection outcome ≡ ok (s', c)
      → weight (left_by c) < weight p
  unfolding on_read
  received-lighter s p (done chunk) {c = c} r m shut e =
      let out = Step-IsReleased handle (received-Step handle s p (done chunk) r m e) shut in
      let was : weight p ≡ 2 = rw (r, m) in
      let now : weight (left_by c) ≤ 1 = rw out (weight_late c.phase) in omega arith
  received-lighter s p failed {c = c} r m shut e =
      let now : c.phase ≡ idle = cc in rw (now, r) (reading_positive p.late)
    where
      reading_positive : (late : Bool) → 0 < weight_of reading late
      reading_positive true = omega arith
      reading_positive false = omega arith
  received-lighter s p aborted {c = c} r m shut e =
      let now : c.phase ≡ idle = cc in rw (now, r) (reading_positive p.late)
    where
      reading_positive : (late : Bool) → 0 < weight_of reading late
      reading_positive true = omega arith
      reading_positive false = omega arith

  written-lighter :
      (p : Peer) (outcome : Outcome (Unit {0}))
      → p.connection.phase ≡ writing
      → weight (left_by (on_write p.connection outcome)) < weight p
  unfolding on_write
  written-lighter p (done u) w = rw w (omega arith)
  written-lighter p failed w = rw w (omega arith)
  written-lighter p aborted w = rw w (omega arith)

  -- One operation less is under way, the acceptor is closed and no connection was added.
  abbrev Fewer : HttpServer S → Result (HttpServer S) → Type 0
  Fewer server (ok next) =
      (outstanding next < outstanding server)
      × (next.is_open ≡ false)
      × (length next.peers ≡ length server.peers)
  Fewer server (err f) = Unit

  update-Fewer :
      (server : HttpServer S) (s : S) (i : ℕ) (p q : Peer)
      → server.is_open ≡ false
      → get_elem? server.peers i ≡ some p
      → weight q < weight p
      → Fewer server (ok (record server { handled = s; peers = set server.peers i q }))
  update-Fewer server s i p q shut l less =
      (omega (arith, total-set server.peers i p q l), shut, length-set server.peers i q)

  received-Fewer :
      (server : HttpServer S) (i : ℕ) (outcome : Outcome Bytes) (p : Peer)
      → IsSteady server
      → server.is_open ≡ false
      → get_elem? server.peers i ≡ some p
      → p.connection.phase ≡ reading
      → MayEnd p outcome
      → Fewer server (on_received handle server i outcome (some p))
  received-Fewer server i outcome p h shut l r m =
      left_lem (on_read handle server.handled p.connection outcome) refl
    where
      left_lem :
          (x : Result (S × Connection))
          → on_read handle server.handled p.connection outcome ≡ x
          → Fewer server (
              x >>= λ a.
              ok (record server { handled = a.0; peers = set server.peers i (left_by a.1) }))
      left_lem (err f) e = tt
      left_lem (ok (s, c)) e = update-Fewer server s i p (left_by c) shut l (
          received-lighter server.handled p outcome r m
            (All-get_elem? IsReleased server.peers i (h.let_go shut) l) e)

  accepted-Fewer :
      (server : HttpServer S) (is_open fine : Bool) (request : Request) (reply : Reply)
      → server.is_open ≡ false
      → is_open ≡ false
      → server.accepting ≡ true
      → Fewer server (ok (on_accepted server is_open fine request reply))
  accepted-Fewer server true fine request reply shut e o = cc
  accepted-Fewer server false fine request reply shut e o = (rw o (omega arith), shut, refl)

  completion-Fewer :
      (server : HttpServer S) (e : Completion)
      → IsSteady server
      → server.is_open ≡ false
      → Occurs server e
      → Fewer server (on_completion handle server e)
  unfolding on_completion
  completion-Fewer server (accepted request reply fine) h shut o =
      accepted-Fewer server server.is_open fine request reply shut shut o
  completion-Fewer server signalled h shut o =
      let silent : server.awaiting ≡ false = h.deaf shut in cc
  completion-Fewer server (received i outcome) h shut (p, l, r, m) =
      rw l (received-Fewer server i outcome p h shut l r m)
  completion-Fewer server (written i outcome) h shut (p, l, w, m) =
      rw l (update-Fewer server server.handled i p _ shut l (written-lighter p outcome w))

  -- Some operation can complete, and its handler runs without a fault.
  abbrev pub Ready : HttpServer S → Type 0
  Ready server =
      (e : Completion) × Occurs server e
      × (next : HttpServer S) × (on_completion handle server e ≡ ok next)

  Busy-Ready : (server : HttpServer S) → Busy server.peers → Ready server
  unfolding on_completion on_read
  Busy-Ready server (i, p, l, inl r) = (
    received i failed,
    (p, l, r, tt),
    record server { peers = set server.peers i (left_by (stop p.connection)) },
    rw l,
  )
  Busy-Ready server (i, p, l, inr w) =
      (written i failed, (p, l, w, tt), on_written server i failed (some p), rw l)

  shut-Ready :
      (server : HttpServer S)
      → IsSteady server
      → server.is_open ≡ false
      → (outstanding server ≡ 0) ⊎ Ready server
  unfolding on_completion
  shut-Ready server h shut = elim (Bool-cases server.accepting) [
    | inl y ↦ inr (accepted (blank 0 0) (stock_reply bad_request) false, y, _, refl)
    | inr n ↦ elim (total-cases server.peers) [
      | inl z ↦ inl (rw (n, h.deaf shut, z))
      | inr b ↦ inr (Busy-Ready server b)
    ]
  ]

  Runs-Fewer :
      (server server' : HttpServer S) (es : List Completion)
      → IsSteady server
      → server.is_open ≡ false
      → Runs handle server es server'
      → (length es + outstanding server' ≤ outstanding server)
        × (server'.is_open ≡ false)
        × (length server'.peers ≡ length server.peers)
  Runs-Fewer server server' [] h shut same =
      subst
        (λ t.
          (0 + outstanding t ≤ outstanding server)
          × (t.is_open ≡ false)
          × (length t.peers ≡ length server.peers))
        same (omega arith, shut, refl)
  Runs-Fewer server server' (e ∷ es) h shut (o, next, r, rest) =
      let f : Fewer server (ok next) = rw r at (completion-Fewer server e h shut o) in
      let g =
        Runs-Fewer next server' es (rw r at (completion-Steady handle server e h o)) f.1 rest in
      (omega arith, g.1, g.2 ∙ f.2)

  -- Once a signal closed the acceptor of a server that ran from its start, at most one completion
  -- for the accept and two for each of its connections are still to come, whatever they are; no
  -- connection is added. Until nothing is outstanding, so that `run` returns, there is always a
  -- completion that can come and whose handler meets no fault.
  pub shut_down :
      (s : S) (es es' : List Completion) (server server' : HttpServer S)
      → Runs handle (listening s) es server
      → server.is_open ≡ false
      → Runs handle server es' server'
      → (length es' + outstanding server' ≤ 1 + 2 * length server.peers)
        × (length server'.peers ≡ length server.peers)
        × ((outstanding server' ≡ 0) ⊎ Ready server')
  shut_down s es es' server server' r shut r' =
      let h = Runs-IsSteady handle s es server r in
      let f = Runs-Fewer server server' es' h shut r' in
      let silent = h.deaf shut in
      (
        omega (arith, at_most server silent),
        f.2,
        shut-Ready server' (Runs-Steady handle server server' es' h r') f.1,
      )
    where
      at_most : (t : HttpServer S) → t.awaiting ≡ false → outstanding t ≤ 1 + 2 * length t.peers
      at_most t e = rw e (accept_lem t.accepting)
        where
          accept_lem :
              (b : Bool) → (if b then 1 else 0) + 0 + total t.peers ≤ 1 + 2 * length t.peers
          accept_lem true = omega (arith, total-le t.peers)
          accept_lem false = omega (arith, total-le t.peers)
