-- ===== src/Http/Server/Outstanding.antt =====
-- HttpWrapper/src/server.cpp: how many completions are still to come.
use reminder_suite.Prelude.{
  ℕ, zero, suc, ◌+◌, ◌*◌, ◌≤◌, ◌≡◌, ◌⊎◌, inl, inr, Bool, true, false, List, [], ◌∷◌, some, length,
  set, get_elem?, refl, arith, if◌then◌else◌,
}
use reminder_suite.Http.Connection.{Phase, reading, writing, idle}
use reminder_suite.Http.Server.{Peer, HttpServer}

-- How many completions the operation under way can still lead to once the socket is closed.
abbrev pub weight_of : Phase → Bool → ℕ
weight_of reading late = if late then 1 else 2
weight_of writing late = 1
weight_of idle late = 0

abbrev pub weight : Peer → ℕ
weight p = weight_of p.connection.phase p.late

abbrev pub total : List Peer → ℕ
total [] = 0
total (p ∷ ps) = weight p + total ps

pub weight-le : (f : Phase) (late : Bool) → weight_of f late ≤ 2
weight-le reading true = omega arith
weight-le reading false = omega arith
weight-le writing late = omega arith
weight-le idle late = omega arith

pub weight_late : (f : Phase) → weight_of f true ≤ 1
weight_late reading = omega arith
weight_late writing = omega arith
weight_late idle = omega arith

pub total-le : (ps : List Peer) → total ps ≤ 2 * length ps
total-le [] = omega arith
total-le (p ∷ ps) = omega (arith, weight-le p.connection.phase p.late, total-le ps)

pub total-set :
    (ps : List Peer) (i : ℕ) (p q : Peer)
    → get_elem? ps i ≡ some p
    → total (set ps i q) + weight p ≡ total ps + weight q
total-set [] i p q e = cc
total-set (p' ∷ ps) zero p q e = let same : p' ≡ p = cc in rw same (omega arith)
total-set (p' ∷ ps) (suc i) p q e = omega (arith, total-set ps i p q e)

abbrev pub outstanding : {S : Type 0} → HttpServer S → ℕ
outstanding server =
    (if server.accepting then 1 else 0) + (if server.awaiting then 1 else 0) + total server.peers

-- A peer with an operation under way.
abbrev pub Busy : List Peer → Type 0
Busy ps =
    (i : ℕ) × (p : Peer) × (get_elem? ps i ≡ some p)
    × ((p.connection.phase ≡ reading) ⊎ (p.connection.phase ≡ writing))

pub total-cases : (ps : List Peer) → (total ps ≡ 0) ⊎ Busy ps
total-cases [] = inl refl
total-cases (p ∷ ps) = phase_cases p.connection.phase refl (total-cases ps)
  where
    phase_cases :
        (f : Phase)
        → p.connection.phase ≡ f
        → (total ps ≡ 0) ⊎ Busy ps
        → (weight_of p.connection.phase p.late + total ps ≡ 0) ⊎ Busy (p ∷ ps)
    phase_cases reading e t = inr (0, p, refl, inl e)
    phase_cases writing e t = inr (0, p, refl, inr e)
    phase_cases idle e (inl z) = inl (rw e (omega arith))
    phase_cases idle e (inr (i, q, l, b)) = inr (suc i, q, l, b)
