-- ===== src/Http/Server/Invariant.antt =====
-- HttpWrapper/src/server.cpp: what holds of the server whenever its event loop runs.
use mathlib.Core.Path.{subst}
use reminder_suite.Prelude.{
  ℕ, zero, suc, ◌≡◌, Bool, true, false, not, List, [], ◌∷◌, map, some, set, get_elem?, All,
  All-append, All-set, refl,
}
use reminder_suite.Prelude.Fault.{Result, ok, err, ◌>>=◌}
use reminder_suite.Text.{Bytes}
use reminder_suite.Http.{Request}
use reminder_suite.Http.Reply.{Reply}
use reminder_suite.Http.Connection.{
  reading, writing, Connection, start, Outcome, done, failed, aborted, on_read, on_write,
}
use reminder_suite.Http.Connection.Lifetime.{
  IsSound, Step, read_done, read_failed, read_aborted, write_done, write_failed, write_aborted,
  Step-IsSound, Step-IsReleased,
}
use reminder_suite.Http.Server.{
  Peer, HttpServer, Completion, accepted, signalled, received, written, left_by, release, listening,
  on_accepted, on_received, on_written, on_completion, MayEnd, Occurs, Runs,
}

-- A late operation is one of a connection that the manager let go.
pub record IsFit (p : Peer) : Type 0 where
  pub sound : IsSound p.connection
  pub lateness : p.late ≡ true → p.connection.managed ≡ false

abbrev pub IsReleased : Peer → Type 0
IsReleased p = p.connection.managed ≡ false

-- While the acceptor is open, an accept and the wait for a signal are under way; once it is closed,
-- the manager's set is empty and no signal is waited for.
pub record IsSteady {S : Type 0} (server : HttpServer S) : Type 0 where
  pub fit : All IsFit server.peers
  pub waits : server.is_open ≡ true → (server.accepting ≡ true) × (server.awaiting ≡ true)
  pub let_go : server.is_open ≡ false → All IsReleased server.peers
  pub deaf : server.is_open ≡ false → server.awaiting ≡ false

pub All-get_elem? {ℓ κ} :
    {A : Type ℓ} (P : A → Type κ) (xs : List A) (i : ℕ) {x : A}
    → All P xs
    → get_elem? xs i ≡ some x
    → P x
All-get_elem? P [] i h e = cc
All-get_elem? P (y ∷ xs) zero {x} h e = let same : y ≡ x = cc in subst P same h.0
All-get_elem? P (x ∷ xs) (suc i) h e = All-get_elem? P xs i h.1 e

left_by-IsFit : (c : Connection) → IsSound c → IsFit (left_by c)
left_by-IsFit c h = record { sound = h; lateness = late_lem c.managed }
  where
    late_lem : (b : Bool) → not b ≡ true → b ≡ false
    late_lem true e = cc
    late_lem false e = refl

release-All : (ps : List Peer) → All IsReleased (map release ps)
release-All [] = tt
release-All (p ∷ ps) = (refl, release-All ps)

module _ {S : Type 0} (handle : S → Request → Reply → Result (S × Reply)) where
  pub received-Step :
      (s : S) (p : Peer) (outcome : Outcome Bytes) {s' : S} {c' : Connection}
      → p.connection.phase ≡ reading
      → MayEnd p outcome
      → on_read handle s p.connection outcome ≡ ok (s', c')
      → Step handle s p.connection s' c'
  received-Step s p (done chunk) r m e = read_done chunk r e
  received-Step s p failed r m e = read_failed r e
  received-Step s p aborted r m e = read_aborted r m e

  pub written-Step :
      (s : S) (p : Peer) (outcome : Outcome (Unit {0}))
      → p.connection.phase ≡ writing
      → MayEnd p outcome
      → Step handle s p.connection s (on_write p.connection outcome)
  written-Step s p (done u) w m = write_done w
  written-Step s p failed w m = write_failed w
  written-Step s p aborted w m = write_aborted w m

  abbrev pub Steady : Result (HttpServer S) → Type 0
  Steady (ok server) = IsSteady server
  Steady (err f) = Unit

  update-IsSteady :
      (server : HttpServer S) (s : S) (i : ℕ) (p : Peer) (c : Connection)
      → IsSteady server
      → get_elem? server.peers i ≡ some p
      → IsSound c
      → (p.connection.managed ≡ false → c.managed ≡ false)
      → IsSteady (record server { handled = s; peers = set server.peers i (left_by c) })
  update-IsSteady server s i p c h l sound keeps = record {
    fit = All-set IsFit server.peers i (left_by c) h.fit (left_by-IsFit c sound);
    waits = h.waits;
    let_go = λ shut.
        All-set IsReleased server.peers i (left_by c) (h.let_go shut)
          (keeps (All-get_elem? IsReleased server.peers i (h.let_go shut) l));
    deaf = h.deaf;
  }

  received-Steady :
      (server : HttpServer S) (i : ℕ) (outcome : Outcome Bytes) (p : Peer)
      → IsSteady server
      → get_elem? server.peers i ≡ some p
      → p.connection.phase ≡ reading
      → MayEnd p outcome
      → Steady (on_received handle server i outcome (some p))
  received-Steady server i outcome p h l r m =
      left_lem (on_read handle server.handled p.connection outcome) refl
    where
      left_lem :
          (x : Result (S × Connection))
          → on_read handle server.handled p.connection outcome ≡ x
          → Steady (
              x >>= λ a.
              ok (record server { handled = a.0; peers = set server.peers i (left_by a.1) }))
      left_lem (err f) e = tt
      left_lem (ok (s, c)) e =
          let st = received-Step server.handled p outcome r m e in
          update-IsSteady server s i p c h l
            (Step-IsSound handle st (All-get_elem? IsFit server.peers i h.fit l).sound)
            (Step-IsReleased handle st)

  written-IsSteady :
      (server : HttpServer S) (i : ℕ) (outcome : Outcome (Unit {0})) (p : Peer)
      → IsSteady server
      → get_elem? server.peers i ≡ some p
      → p.connection.phase ≡ writing
      → MayEnd p outcome
      → IsSteady (on_written server i outcome (some p))
  written-IsSteady server i outcome p h l w m =
      let st = written-Step server.handled p outcome w m in
      update-IsSteady server server.handled i p (on_write p.connection outcome) h l
        (Step-IsSound handle st (All-get_elem? IsFit server.peers i h.fit l).sound)
        (Step-IsReleased handle st)

  accepted-IsSteady :
      (server : HttpServer S) (is_open fine : Bool) (request : Request) (reply : Reply)
      → server.is_open ≡ is_open
      → IsSteady server
      → IsSteady (on_accepted server is_open fine request reply)
  accepted-IsSteady server false fine request reply e h = record {
    fit = h.fit;
    waits = λ o. cc;
    let_go = h.let_go;
    deaf = h.deaf;
  }
  accepted-IsSteady server true false request reply e h = h
  accepted-IsSteady server true true request reply e h = record {
    fit =
        All-append IsFit server.peers _ h.fit
          (left_by-IsFit (start request reply) (record { pending = λ m e. cc; header = tt }), tt);
    waits = h.waits;
    let_go = λ shut. cc;
    deaf = h.deaf;
  }

  release-IsFit : (ps : List Peer) → All IsFit ps → All IsFit (map release ps)
  release-IsFit [] h = tt
  release-IsFit (p ∷ ps) h = (
    record {
      sound = record { pending = λ m. cc; header = h.0.sound.header };
      lateness = λ e. refl;
    },
    release-IsFit ps h.1,
  )

  pub completion-Steady :
      (server : HttpServer S) (e : Completion)
      → IsSteady server
      → Occurs server e
      → Steady (on_completion handle server e)
  unfolding on_completion
  completion-Steady server (accepted request reply fine) h o =
      accepted-IsSteady server server.is_open fine request reply refl h
  completion-Steady server signalled h o = record {
    fit = release-IsFit server.peers h.fit;
    waits = λ e. cc;
    let_go = λ e. release-All server.peers;
    deaf = λ e. refl;
  }
  completion-Steady server (received i outcome) h (p, l, r, m) =
      rw l (received-Steady server i outcome p h l r m)
  completion-Steady server (written i outcome) h (p, l, w, m) =
      rw l (written-IsSteady server i outcome p h l w m)

  pub Runs-Steady :
      (server server' : HttpServer S) (es : List Completion)
      → IsSteady server
      → Runs handle server es server'
      → IsSteady server'
  Runs-Steady server server' [] h e = subst IsSteady e h
  Runs-Steady server server' (e ∷ es) h (o, next, r, rest) =
      Runs-Steady next server' es (rw r at (completion-Steady server e h o)) rest

  -- Whatever operations complete after the server was made, in any order: every connection in the
  -- manager's set has a read or a write under way, and its parser can go on from where it is; while
  -- the acceptor is open, an accept and the wait for a signal are under way; once it is closed, the
  -- manager's set is empty.
  pub Runs-IsSteady :
      (s : S) (es : List Completion) (server : HttpServer S)
      → Runs handle (listening s) es server
      → IsSteady server
  Runs-IsSteady s es server r =
      Runs-Steady (listening s) server es
        (record { fit = tt; waits = λ o. (refl, refl); let_go = λ shut. cc; deaf = λ shut. cc }) r
