-- ===== src/Http/Server/Peers.antt =====
-- HttpWrapper/src/server.cpp: what the completions of other connections leave of one.
use mathlib.Core.Path.{subst}
use reminder_suite.Prelude.{
  ℕ, zero, suc, ◌≡◌, ◌≢◌, ◌∙◌, Bool, true, false, List, [], ◌∷◌, ◌++◌, Option, none, some, set,
  get_elem?, refl, sym, ap, inl, inr, ◌==◌, Bool-cases, if◌then◌else◌, arith,
}
use reminder_suite.Prelude.Fault.{Result, ok, Holds, then-Holds}
use reminder_suite.Text.{Bytes}
use reminder_suite.Http.{Request}
use reminder_suite.Http.Reply.{Reply}
use reminder_suite.Http.Connection.{reading, Connection, done, failed, aborted, on_read}
use reminder_suite.Http.Server.{
  Peer, HttpServer, Completion, accepted, signalled, received, written, left_by, on_completion,
  on_accepted, on_received, on_written, Occurs, Runs,
}

-- What reaches a connection.
abbrev pub chunks_of : ℕ → List Completion → List Bytes
chunks_of i [] = []
chunks_of i (received j (done chunk) ∷ es) =
    let rest = chunks_of i es in if j == i then chunk ∷ rest else rest
chunks_of i (received j failed ∷ es) = chunks_of i es
chunks_of i (received j aborted ∷ es) = chunks_of i es
chunks_of i (written j outcome ∷ es) = chunks_of i es
chunks_of i (accepted request reply fine ∷ es) = chunks_of i es
chunks_of i (signalled ∷ es) = chunks_of i es

-- No signal comes, no read of the connection fails, and it has not been written to yet.
abbrev pub IsCalm : ℕ → List Completion → Type 0
IsCalm i [] = Unit
IsCalm i (received j (done chunk) ∷ es) = IsCalm i es
IsCalm i (received j failed ∷ es) = ((j == i) ≡ false) × IsCalm i es
IsCalm i (received j aborted ∷ es) = ((j == i) ≡ false) × IsCalm i es
IsCalm i (written j outcome ∷ es) = ((j == i) ≡ false) × IsCalm i es
IsCalm i (accepted request reply fine ∷ es) = IsCalm i es
IsCalm i (signalled ∷ es) = ⊥

module _ {ℓ} {A : Type ℓ} where
  pub get_elem?-set_self :
      (xs : List A) (i : ℕ) {x : A} (v : A)
      → get_elem? xs i ≡ some x
      → get_elem? (set xs i v) i ≡ some v
  get_elem?-set_self [] i v e = cc
  get_elem?-set_self (x ∷ xs) zero v e = refl
  get_elem?-set_self (x ∷ xs) (suc i) v e = get_elem?-set_self xs i v e

  get_elem?-set_other :
      (xs : List A) (j i : ℕ) (v : A) → (j == i) ≡ false → get_elem? (set xs j v) i ≡ get_elem? xs i
  get_elem?-set_other [] j i v n = refl
  get_elem?-set_other (x ∷ xs) zero zero v n = cc
  get_elem?-set_other (x ∷ xs) zero (suc i) v n = refl
  get_elem?-set_other (x ∷ xs) (suc j) zero v n = refl
  get_elem?-set_other (x ∷ xs) (suc j) (suc i) v n = get_elem?-set_other xs j i v (ground arith)

  get_elem?-append :
      (xs ys : List A) (i : ℕ) {x : A} → get_elem? xs i ≡ some x → get_elem? (xs ++ ys) i ≡ some x
  get_elem?-append [] ys i e = cc
  get_elem?-append (x ∷ xs) ys zero e = e
  get_elem?-append (x ∷ xs) ys (suc i) e = get_elem?-append xs ys i e

-- A completion that is none of the connection's own.
abbrev pub IsForeign : ℕ → Completion → Type 0
IsForeign i (received j outcome) = (j == i) ≡ false
IsForeign i (written j outcome) = (j == i) ≡ false
IsForeign i (accepted request reply fine) = Unit
IsForeign i signalled = ⊥

module _ {S : Type 0} (handle : S → Request → Reply → Result (S × Reply)) where
  abbrev pub HasPeer : ℕ → Peer → HttpServer S → Type 0
  HasPeer i p server = get_elem? server.peers i ≡ some p

  accepted-HasPeer :
      (server : HttpServer S) (i : ℕ) (p : Peer) (is_open fine : Bool) (request : Request)
      (reply : Reply)
      → HasPeer i p server
      → HasPeer i p (on_accepted server is_open fine request reply)
  accepted-HasPeer server i p false fine request reply l = l
  accepted-HasPeer server i p true false request reply l = l
  accepted-HasPeer server i p true true request reply l = get_elem?-append server.peers _ i l

  pub foreign-HasPeer :
      (server : HttpServer S) (e : Completion) (i : ℕ) (p : Peer)
      → IsForeign i e
      → HasPeer i p server
      → Holds (HasPeer i p) (on_completion handle server e)
  unfolding on_completion
  foreign-HasPeer server (accepted request reply fine) i p n l =
      accepted-HasPeer server i p server.is_open fine request reply l
  foreign-HasPeer server signalled i p n l = absurd n
  foreign-HasPeer server (received j outcome) i p n l = of_peer (get_elem? server.peers j)
    where
      of_peer : (o : Option Peer) → Holds (HasPeer i p) (on_received handle server j outcome o)
      of_peer none = l
      of_peer (some q) =
          then-Holds (HasPeer i p) (on_read handle server.handled q.connection outcome)
            (λ a. ok (record server { handled = a.0; peers = set server.peers j (left_by a.1) }))
            (λ (a : S × Connection). get_elem?-set_other server.peers j i (left_by a.1) n ∙ l)
  foreign-HasPeer server (written j outcome) i p n l = of_peer (get_elem? server.peers j)
    where
      of_peer : (o : Option Peer) → HasPeer i p (on_written server j outcome o)
      of_peer none = l
      of_peer (some q) = get_elem?-set_other server.peers j i _ n ∙ l

  IsCalm-tail : (i : ℕ) (e : Completion) (es : List Completion) → IsCalm i (e ∷ es) → IsCalm i es
  IsCalm-tail i (received j (done chunk)) es h = h
  IsCalm-tail i (received j failed) es h = h.1
  IsCalm-tail i (received j aborted) es h = h.1
  IsCalm-tail i (written j outcome) es h = h.1
  IsCalm-tail i (accepted request reply fine) es h = h
  IsCalm-tail i signalled es h = absurd h

  -- A connection that does not read stays as it is.
  calm-IsForeign :
      (server : HttpServer S) (i : ℕ) (p : Peer) (e : Completion) (es : List Completion)
      → IsCalm i (e ∷ es)
      → HasPeer i p server
      → p.connection.phase ≢ reading
      → Occurs server e
      → IsForeign i e
  calm-IsForeign server i p (received j failed) es h l r o = h.0
  calm-IsForeign server i p (received j aborted) es h l r o = h.0
  calm-IsForeign server i p (written j outcome) es h l r o = h.0
  calm-IsForeign server i p (accepted request reply fine) es h l r o = tt
  calm-IsForeign server i p signalled es h l r o = h
  calm-IsForeign server i p (received j (done chunk)) es h l r (q, at, reads, m) =
      elim (Bool-cases (j == i)) [
        | inr other ↦ other
        | inl own ↦
            let same : j ≡ i = ground arith in
            let met : q ≡ p = cc in
            absurd (r (ap (λ (t : Peer). t.connection.phase) (sym met) ∙ reads))
      ]

  pub resting :
      (server server' : HttpServer S) (i : ℕ) (p : Peer) (es : List Completion)
      → Runs handle server es server'
      → IsCalm i es
      → HasPeer i p server
      → p.connection.phase ≢ reading
      → HasPeer i p server'
  resting server server' i p [] e h l r = subst (HasPeer i p) e l
  resting server server' i p (e ∷ es) (o, next, n, rest) h l r =
      resting next server' i p es rest (IsCalm-tail i e es h)
        (rw n at (foreign-HasPeer server e i p (calm-IsForeign server i p e es h l r o) l)) r
