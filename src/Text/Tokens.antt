-- ===== src/Text/Tokens.antt =====
-- Laws of `tokens` and `write_each`.
use reminder_suite.Prelude.{
  ℕ, List, [], ◌∷◌, ◌++◌, ◌≡◌, ◌≢◌, refl, ap, ◌∙◌, ◌==◌, Bool-cases, inl, inr, All, arith,
}
use reminder_suite.Text.{Bytes, Free, tokens, cons_head, write_each, before_first}

module _ (sep : ℕ) where
  pub tokens-Free : (t : Bytes) → Free sep t → tokens sep t ≡ t ∷ []
  unfolding tokens
  tokens-Free [] h = refl
  tokens-Free (c ∷ []) h = ground arith
  tokens-Free (c ∷ d ∷ cs) h = ground (arith, tokens-Free (d ∷ cs) h.1)

  -- One token, its separator, and the rest.
  pub tokens-append_last : (t : Bytes) → Free sep t → tokens sep (t ++ sep ∷ []) ≡ t ∷ []
  unfolding tokens
  tokens-append_last [] h = ground arith
  tokens-append_last (c ∷ []) h = ground arith
  tokens-append_last (c ∷ d ∷ cs) h = ground (arith, tokens-append_last (d ∷ cs) h.1)

  pub tokens-append :
      (t : Bytes) (r : ℕ) (rs : Bytes)
      → Free sep t
      → tokens sep (t ++ (sep ∷ r ∷ rs)) ≡ t ∷ tokens sep (r ∷ rs)
  unfolding tokens
  tokens-append [] r rs h = ground arith
  tokens-append (c ∷ []) r rs h = ground arith
  tokens-append (c ∷ d ∷ cs) r rs h = ground (arith, tokens-append (d ∷ cs) r rs h.1)

  pub tokens-ne-nil : (s : Bytes) → tokens sep s ≢ []
  unfolding tokens
  tokens-ne-nil [] = ground arith
  tokens-ne-nil (c ∷ []) = ground arith
  tokens-ne-nil (c ∷ d ∷ cs) = ground arith

  All-cons_head :
      (c : ℕ) (ts : List Bytes) → c ≢ sep → All (Free sep) ts → All (Free sep) (cons_head c ts)
  All-cons_head c [] n h = ((n, tt), tt)
  All-cons_head c (t ∷ ts) n h = ((n, h.0), h.1)

  pub All-tokens : (s : Bytes) → All (Free sep) (tokens sep s)
  unfolding tokens
  All-tokens [] = (tt, tt)
  All-tokens (c ∷ []) = ground arith
  All-tokens (c ∷ d ∷ cs) =
      ground (arith, All-tokens (d ∷ cs), All-cons_head c (tokens sep (d ∷ cs)))

  -- Another first byte behind a separator.
  pub write_each-cons :
      (t : Bytes) (ts : List Bytes)
      → (r : ℕ) × (rs : Bytes) × (write_each (sep ∷ []) (t ∷ ts) ≡ r ∷ rs)
  unfolding write_each
  write_each-cons [] ts = (sep, write_each (sep ∷ []) ts, refl)
  write_each-cons (c ∷ cs) ts = (c, cs ++ (sep ∷ write_each (sep ∷ []) ts), refl)

  -- What `ostream_iterator` wrote is read back, an empty last text included.
  pub tokens-write_each :
      (t : Bytes) (ts : List Bytes)
      → All (Free sep) (t ∷ ts)
      → tokens sep (write_each (sep ∷ []) (t ∷ ts)) ≡ t ∷ ts
  unfolding write_each
  tokens-write_each t [] h = tokens-append_last t h.0
  tokens-write_each t (u ∷ us) h =
      let (r, rs, e) = write_each-cons u us in
      rw e (tokens-append t r rs h.0 ∙ rw (← e) (ap (◌∷◌ t) (tokens-write_each u us h.1)))

cons_head-Free :
    (b c : ℕ) (ts : List Bytes) → c ≢ b → All (Free b) ts → All (Free b) (cons_head c ts)
cons_head-Free b c [] n h = ((n, tt), tt)
cons_head-Free b c (t ∷ ts) n h = ((n, h.0), h.1)

-- A byte that a line holds only if it is the separator stays out of every token of it.
pub tokens-keep-Free : (sep b : ℕ) (s : Bytes) → Free b s → All (Free b) (tokens sep s)
unfolding tokens
tokens-keep-Free sep b [] h = (tt, tt)
tokens-keep-Free sep b (c ∷ []) h = ground arith
tokens-keep-Free sep b (c ∷ d ∷ cs) h =
    ground
      (arith, tokens-keep-Free sep b (d ∷ cs) h.1, cons_head-Free b c (tokens sep (d ∷ cs)) h.0)

-- The first token is what stands before the first separator.
pub tokens-before_first :
    (sep : ℕ) (s : Bytes) → (ts : List Bytes) × (tokens sep s ≡ before_first sep s ∷ ts)
unfolding tokens before_first
tokens-before_first sep [] = ([], refl)
tokens-before_first sep (c ∷ []) = ([], ground arith)
tokens-before_first sep (c ∷ d ∷ cs) = elim (Bool-cases (c == sep)) [
  | inl e ↦ rw e (tokens sep (d ∷ cs), refl)
  | inr n ↦ let (ts, h) = tokens-before_first sep (d ∷ cs) in rw (n, h) (ts, refl)
]
