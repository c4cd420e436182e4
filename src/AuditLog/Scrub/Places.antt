-- ===== src/AuditLog/Scrub/Places.antt =====
-- Places of a text and of what `sub` makes of it: where a pattern matches afterwards it has matched before.
use tristar.Base.{
  ℕ, zero, ◌-◌, Bool, true, false, ◌||◌, Option, none, some, List, [], ◌∷◌, ◌++◌, ◌≡◌, inl, inr,
  refl, arith, sym, ◌∙◌, Bool-cases, Option-cases, if◌then◌else◌, length, Text,
}
use mathlib.Core.Path.{subst}
use tristar.AuditLog.Regex.{
  Regex, one, many, maybe, seq, boundary, Rest, in_turn, one_of, word_at, head, differ, first,
  match, sub_from,
}

-- One of the matches goes on as `k` asks for.
abbrev pub any : (Rest → Bool) → List Rest → Bool
any k [] = false
any k (r ∷ rs) = k r || any k rs

any-append : (k : Rest → Bool) (xs ys : List Rest) → any k (xs ++ ys) ≡ (any k xs || any k ys)
any-append k [] ys = refl
any-append k (x ∷ xs) ys = ground (arith, any-append k xs ys)

any-in_turn :
    (k : Rest → Bool) (f : Rest → List Rest) (rs : List Rest)
    → any k (in_turn f rs) ≡ any (λ r. any k (f r)) rs
any-in_turn k f [] = refl
any-in_turn k f (r ∷ rs) = ground (arith, any-append k (f r) (in_turn f rs), any-in_turn k f rs)

-- No class of the pattern has the character, and no `+` is in it.
abbrev pub Avoids : ℕ → Regex → Type 0
Avoids c (one p) = p c ≡ false
Avoids c (many p) = true ≡ false
Avoids c (maybe x) = Avoids c x
Avoids c (seq x y) = Avoids c x × Avoids c y
Avoids c boundary = Unit {0}

module _ (w : ℕ → Bool) (x₀ : Regex) (bracket : ℕ) (redacted : Text) where
  abbrev place : Option ℕ → Text → Option Rest
  place b s = first (match w (seq boundary x₀) (record { before = b; rest = s }))

  -- what `sub` makes of the text from a place on
  abbrev made : Option ℕ → Text → Text
  made b s = sub_from w (seq boundary x₀) (bracket ∷ redacted) zero b s

  pub made-none :
      (b : Option ℕ) (c : ℕ) (s : Text)
      → place b (c ∷ s) ≡ none
      → made b (c ∷ s) ≡ c ∷ made (some c) s
  unfolding sub_from
  made-none b c s e = rw (sub_from, e) refl

  pub made-some :
      (b : Option ℕ) (c : ℕ) (s : Text) (r : Rest)
      → place b (c ∷ s) ≡ some r
      → made b (c ∷ s)
        ≡ (bracket ∷ redacted)
          ++ sub_from w (seq boundary x₀) (bracket ∷ redacted) (length s - length r.rest) (some c) s
  unfolding sub_from
  made-some b c s r e = rw (sub_from, e) refl

  made-nil : (b : Option ℕ) → made b [] ≡ []
  unfolding sub_from
  made-nil b = refl

  -- A place where the pattern matches is at the edge of a word.
  edge :
      (b : Option ℕ) (s : Text) (r : Rest)
      → place b s ≡ some r
      → differ (word_at w b) (word_at w (head s)) ≡ true
  unfolding match
  edge b s r e = elim (Bool-cases (differ (word_at w b) (word_at w (head s)))) [
    | inl is ↦ is
    | inr other ↦ absurd (let e' = rw other at e in ground arith)
  ]

  abbrev at_edge : Option ℕ → Text → List Rest
  at_edge b s =
      if differ (word_at w b) (word_at w (head s)) then record { before = b; rest = s } ∷ [] else []

  at_edge-any :
      (k : Rest → Bool) (b : Option ℕ) (s : Text)
      → any k (at_edge b s) ≡ true
      → (differ (word_at w b) (word_at w (head s)) ≡ true)
        × (k (record { before = b; rest = s }) ≡ true)
  at_edge-any k b s h = elim (Bool-cases (differ (word_at w b) (word_at w (head s)))) [
    | inl is ↦ (is, ground arith)
    | inr other ↦ absurd (ground arith)
  ]

  -- What goes on after the same steps from a place of the result goes on from the place of the text.
  abbrev Follows : (Rest → Bool) → (Rest → Bool) → Type 0
  Follows k k' =
      (b : Option ℕ) (s : Text)
      → k (record { before = b; rest = made b s }) ≡ true
      → k' (record { before = b; rest = s }) ≡ true

  pub match-Follows :
      (x : Regex) (k k' : Rest → Bool)
      → Avoids bracket x
      → Follows k k'
      → Follows (λ r. any k (match w x r)) (λ r. any k' (match w x r))
  unfolding match
  match-Follows (one p) k k' a f b [] h =
      let gone = subst (λ t. any k (one_of p t) ≡ true) (made-nil b) h in absurd (ground arith)
  match-Follows (one p) k k' a f b (c ∷ s) h = elim (Option-cases (place b (c ∷ s))) [
    | inl e ↦
        let kept = subst (λ t. any k (one_of p t) ≡ true) (made-none b c s e) h in
        let on = f (some c) s in ground (arith, kept, on)
    | inr (r, e) ↦
        let gone = subst (λ t. any k (one_of p t) ≡ true) (made-some b c s r e) h in
        absurd (ground (arith, gone, a))
  ]
  match-Follows (many p) k k' a f b s h = absurd (ground arith)
  match-Follows (maybe x) k k' a f b s h =
      let (r, r') : Rest × Rest =
        (record { before = b; rest = made b s }, record { before = b; rest = s }) in
      let longer = match-Follows x k k' a f b s in
      let none_more = f b s in
      ground (
        arith,
        any-append k (match w x r) (r ∷ []),
        any-append k' (match w x r') (r' ∷ []),
        h,
        longer,
        none_more,
      )
  match-Follows (seq x y) k k' a f b s h =
      any-in_turn k' (match w y) (match w x (record { before = b; rest = s }))
      ∙ match-Follows x (λ r. any k (match w y r)) (λ r. any k' (match w y r)) a.0
          (match-Follows y k k' a.1 f) b s
          (sym (any-in_turn k (match w y) (match w x (record { before = b; rest = made b s }))) ∙ h)
  match-Follows boundary k k' a f b [] h =
      let (edge_made, on) = at_edge-any k b (made b []) h in
      let same =
        subst (λ t. differ (word_at w b) (word_at w (head t)) ≡ true) (made-nil b) edge_made in
      ground (arith, same, f b [] on)
  match-Follows boundary k k' a f b (c ∷ s) h =
      let (edge_made, on) = at_edge-any k b (made b (c ∷ s)) h in
      elim (Option-cases (place b (c ∷ s))) [
        | inl e ↦
            let same =
              subst (λ t. differ (word_at w b) (word_at w (head t)) ≡ true) (made-none b c s e)
                edge_made in
            ground (arith, same, f b (c ∷ s) on)
        | inr (r, e) ↦ ground (arith, edge b (c ∷ s) r e, f b (c ∷ s) on)
      ]
