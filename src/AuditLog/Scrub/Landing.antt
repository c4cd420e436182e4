-- ===== src/AuditLog/Scrub/Landing.antt =====
-- Where a match of a pattern that ends in `\d\b` ends.
use tristar.Base.{
  ℕ, zero, suc, ◌-◌, Bool, true, false, some, List, [], ◌∷◌, ◌++◌, ◌≡◌, inl, inr, refl, arith, sym,
  ◌∙◌, ap, Bool-cases, length, Text, All, length-append,
}
use mathlib.Core.Path.{subst}
use tristar.AuditLog.Regex.{
  Regex, one, many, maybe, seq, boundary, Rest, in_turn, one_of, word_at, head, differ, first,
  match,
}
use tristar.AuditLog.Scrub.Places.{Avoids}

-- The second text is the end of the first.
abbrev pub Suffix : Text → Text → Type 0
Suffix s t = (k : Text) × (s ≡ k ++ t)

Suffix-tail : (s : Text) (c : ℕ) (t : Text) → Suffix s (c ∷ t) → Suffix s t
Suffix-tail s c t (k, e) = (k ++ c ∷ [], e ∙ sym (moved k))
  where
    moved : (k : Text) → (k ++ c ∷ []) ++ t ≡ k ++ c ∷ t
    moved [] = refl
    moved (a ∷ k) = ap (λ l. a ∷ l) (moved k)

-- A text after a character that was read does not begin before the one that follows.
Suffix-proper : (c : ℕ) (s : Text) (d : ℕ) (t : Text) → Suffix (c ∷ s) (d ∷ t) → Suffix s t
Suffix-proper c s d t ([], e) = ([], ground arith)
Suffix-proper c s d t (a ∷ k, e) = Suffix-tail s d t (k, ground arith)

All-append : (P : Rest → Type 0) (xs ys : List Rest) → All P xs → All P ys → All P (xs ++ ys)
All-append P [] ys h h' = h'
All-append P (x ∷ xs) ys h h' = (h.0, All-append P xs ys h.1 h')

All-in_turn :
    (P Q : Rest → Type 0) (f : Rest → List Rest)
    → ((r : Rest) → P r → All Q (f r))
    → (rs : List Rest) → All P rs
    → All Q (in_turn f rs)
All-in_turn P Q f each [] h = tt
All-in_turn P Q f each (r ∷ rs) h =
    All-append Q (f r) (in_turn f rs) (each r h.0) (All-in_turn P Q f each rs h.1)

pub first-All : (P : Rest → Type 0) (rs : List Rest) (r : Rest) → All P rs → first rs ≡ some r → P r
first-All P [] r h e = absurd (ground arith)
first-All P (a ∷ rs) r h e = let same : a ≡ r = ground arith in subst P same h.0

one_of-Suffix :
    (full : Text) (p : ℕ → Bool) (t : Text)
    → Suffix full t
    → All (λ r. Suffix full r.rest) (one_of p t)
one_of-Suffix full p [] h = tt
one_of-Suffix full p (c ∷ t) h = elim (Bool-cases (p c)) [
  | inl is ↦ rw is (Suffix-tail full c t h, tt)
  | inr other ↦ rw other tt
]

module _ (w : ℕ → Bool) where
  -- No match begins again before its place.
  match-Suffix :
      (bracket : ℕ) (full : Text) (x : Regex) (r : Rest)
      → Avoids bracket x
      → Suffix full r.rest
      → All (λ r'. Suffix full r'.rest) (match w x r)
  unfolding match
  match-Suffix bracket full (one p) r a h = one_of-Suffix full p r.rest h
  match-Suffix bracket full (many p) r a h = absurd (ground arith)
  match-Suffix bracket full (maybe x) r a h =
      All-append (λ r'. Suffix full r'.rest) (match w x r) (r ∷ [])
        (match-Suffix bracket full x r a h) (h, tt)
  match-Suffix bracket full (seq x y) r a h =
      All-in_turn (λ r'. Suffix full r'.rest) (λ r'. Suffix full r'.rest) (match w y)
        (λ r' h'. match-Suffix bracket full y r' a.1 h') (match w x r)
        (match-Suffix bracket full x r a.0 h)
  match-Suffix bracket full boundary r a h =
      elim (Bool-cases (differ (word_at w r.before) (word_at w (head r.rest)))) [
        | inl is ↦ rw is (h, tt)
        | inr other ↦ rw other tt
      ]

  -- A match ends in the text behind the character at its place, and no character of a word follows.
  abbrev pub Landed : Text → Rest → Type 0
  Landed s r = Suffix s r.rest × (word_at w (head r.rest) ≡ false)

  -- Wherever the pattern begins in a text, it ends like this.
  abbrev pub Lands : Regex → Type 0
  Lands x = (c : ℕ) (s : Text) (r : Rest) → Suffix (c ∷ s) r.rest → All (Landed s) (match w x r)

  pub seq-Lands : (bracket : ℕ) (x y : Regex) → Avoids bracket x → Lands y → Lands (seq x y)
  unfolding match
  seq-Lands bracket x y a h c s r b =
      All-in_turn (λ r'. Suffix (c ∷ s) r'.rest) (Landed s) (match w y) (h c s) (match w x r)
        (match-Suffix bracket (c ∷ s) x r a b)

  pub digit-Lands :
      (p : ℕ → Bool) → ((c : ℕ) → p c ≡ true → w c ≡ true) → Lands (seq (one p) boundary)
  unfolding match
  digit-Lands p word c s r h = last_digit r.rest h
    where
      last_digit :
          (t : Text) → Suffix (c ∷ s) t → All (Landed s) (in_turn (match w boundary) (one_of p t))
      last_digit [] h = tt
      last_digit (d ∷ t) h = elim (Bool-cases (p d)) [
        | inr other ↦ rw other tt
        | inl is ↦
            rw (is, word d is)
              (elim (Bool-cases (word_at w (head t))) [
                | inl more ↦ rw more tt
                | inr no_more ↦ rw no_more ((Suffix-proper c s d t h, no_more), tt)
              ])
      ]

-- So many characters on, no character of a word follows.
abbrev pub EndsAt : (ℕ → Bool) → ℕ → Text → Type 0
EndsAt w zero s = word_at w (head s) ≡ false
EndsAt w (suc k) [] = Unit {0}
EndsAt w (suc k) (c ∷ s) = EndsAt w k s

pub Landed-EndsAt :
    (w : ℕ → Bool) (s : Text) (r : Rest) → Landed w s r → EndsAt w (length s - length r.rest) s
Landed-EndsAt w s r ((k, e), h) = subst (λ t. EndsAt w (length t - length r.rest) t) (sym e) (at k)
  where
    counted : (k : Text) → EndsAt w (length k) (k ++ r.rest)
    counted [] = h
    counted (a ∷ k) = counted k

    at : (k : Text) → EndsAt w (length (k ++ r.rest) - length r.rest) (k ++ r.rest)
    at k =
        let same : length (k ++ r.rest) - length r.rest ≡ length k =
          omega (arith, length-append k r.rest) in
        subst (λ n. EndsAt w n (k ++ r.rest)) (sym same) (counted k)
