-- ===== src/Session/Requests.antt =====
-- Server/src/session.cpp: requests as a client writes them: words behind slashes.
use reminder_suite.Prelude.{
  Bool-cases, inl, inr, ℕ, List, [], ◌∷◌, ◌++◌, append-nil, ◌≡◌, ◌≢◌, refl, ap, ◌∙◌, All, arith,
}
use reminder_suite.Text.{Bytes, Free, tokens, equal}
use reminder_suite.Text.Tokens.{tokens-keep-Free, tokens-Free, tokens-append}
use reminder_suite.Session.{drop_eol, drop_empty_first, request_parts}

-- "/a/b/c"
abbrev pub path : List Bytes → Bytes
path [] = []
path (w ∷ ws) = b'/' ∷ (w ++ path ws)

abbrev pub LastNonEmpty : List Bytes → Type 0
LastNonEmpty [] = Unit
LastNonEmpty (w ∷ []) = w ≢ []
LastNonEmpty (w ∷ v ∷ vs) = LastNonEmpty (v ∷ vs)

-- A word that a request can carry.
pub record IsWord (w : Bytes) : Type 0 where
  pub no_slash : Free b'/' w
  pub no_cr : Free b'\r' w
  pub no_lf : Free b'\n' w

path-cons :
    (w : Bytes) (ws : List Bytes)
    → LastNonEmpty (w ∷ ws)
    → (r : ℕ) × (rs : Bytes) × (w ++ path ws ≡ r ∷ rs)
path-cons [] [] h = absurd (h refl)
path-cons [] (v ∷ vs) h = (b'/', v ++ path vs, refl)
path-cons (c ∷ cs) ws h = (c, cs ++ path ws, refl)

tokens-words :
    (w : Bytes) (ws : List Bytes)
    → All IsWord (w ∷ ws)
    → LastNonEmpty (w ∷ ws)
    → tokens b'/' (w ++ path ws) ≡ w ∷ ws
tokens-words w [] h l = rw append-nil (tokens-Free b'/' w h.0.no_slash)
tokens-words w (v ∷ vs) h l =
    let (r, rs, e) = path-cons v vs l in
    rw e (tokens-append b'/' w r rs h.0.no_slash ∙ rw (← e) (ap (◌∷◌ w) (tokens-words v vs h.1 l)))

tokens-path :
    (w : Bytes) (ws : List Bytes)
    → All IsWord (w ∷ ws)
    → LastNonEmpty (w ∷ ws)
    → tokens b'/' (path (w ∷ ws)) ≡ [] ∷ w ∷ ws
tokens-path w ws h l =
    let (r, rs, e) = path-cons w ws l in
    rw e (tokens-append b'/' [] r rs tt ∙ rw (← e) (ap (◌∷◌ []) (tokens-words w ws h l)))

drop_eol-append : (a b : Bytes) → drop_eol (a ++ b) ≡ drop_eol a ++ drop_eol b
unfolding drop_eol
drop_eol-append [] b = refl
drop_eol-append (c ∷ cs) b = ground (arith, drop_eol-append cs b)

drop_eol-Free : (s : Bytes) → Free b'\r' s → Free b'\n' s → drop_eol s ≡ s
unfolding drop_eol
drop_eol-Free [] r n = refl
drop_eol-Free (c ∷ cs) r n = ground (arith, drop_eol-Free cs r.1 n.1)

pub drop_eol-path : (ws : List Bytes) → All IsWord ws → drop_eol (path ws) ≡ path ws
drop_eol-path [] h = unfold drop_eol in refl
drop_eol-path (w ∷ ws) h =
    drop_eol-append (b'/' ∷ w) (path ws)
    ∙ rw (
      drop_eol-Free (b'/' ∷ w) (omega arith, h.0.no_cr) (omega arith, h.0.no_lf),
      drop_eol-path ws h.1,
    )

-- Dropped line ends stay dropped: where CR and LF stand in a request makes no difference.
pub drop_eol_idem : (s : Bytes) → drop_eol (drop_eol s) ≡ drop_eol s
unfolding drop_eol
drop_eol_idem [] = refl
drop_eol_idem (c ∷ cs) = ground (arith, drop_eol_idem cs)

-- The words of a request are read back.
pub request_parts-path :
    (w : Bytes) (ws : List Bytes)
    → All IsWord (w ∷ ws)
    → LastNonEmpty (w ∷ ws)
    → request_parts (path (w ∷ ws)) ≡ w ∷ ws
unfolding request_parts equal
request_parts-path w ws h l = rw (drop_eol-path (w ∷ ws) h, tokens-path w ws h l)

drop_eol-no_newline : (s : Bytes) → Free b'\n' (drop_eol s)
unfolding drop_eol
drop_eol-no_newline [] = tt
drop_eol-no_newline (c ∷ cs) = ground (arith, drop_eol-no_newline cs)

All-drop_empty_first :
    (P : Bytes → Type 0) (ps : List Bytes) → All P ps → All P (drop_empty_first ps)
All-drop_empty_first P [] h = tt
All-drop_empty_first P (p ∷ ps) h = elim (Bool-cases (equal p [])) [
  | inl e ↦ rw e h.1
  | inr n ↦ rw n h
]

-- No word of a request holds a newline.
pub request_parts-no_newline : (request : Bytes) → All (Free b'\n') (request_parts request)
unfolding request_parts
request_parts-no_newline request =
    All-drop_empty_first (Free b'\n') _
      (tokens-keep-Free b'/' b'\n' (drop_eol request) (drop_eol-no_newline request))
