-- ===== src/AuditLog/Scrub/Emails.antt =====
-- Where `_EMAIL_PATTERN` matches, and what is left of such places by `_scrub_pii`.
use tristar.Base.{
  ℕ, Bool, true, false, not, ◌||◌, Option, some, List, [], ◌∷◌, ◌++◌, ◌≡◌, inl, inr, refl, arith,
  sym, ◌∙◌, ap, Bool-cases, if◌then◌else◌, Text, is_empty,
}
use tristar.AuditLog.Regex.{one, many, seq, Rest, runs, in_turn, one_of, match}
use tristar.AuditLog.Scrub.{is_local, is_domain, is_end, is_at, is_dot, email_pattern}

-- How far a text has got on the way to an address.
pub data Progress : Type 0 where
  start inside at_sign domain dot : Progress

-- The text goes on to the end of an address, read by one character at a time.
abbrev pub reads : Progress → Text → Bool
reads q [] = false
reads start (c ∷ s) = let on = reads inside s in if is_local c then on else false
reads inside (c ∷ s) =
    let on = reads inside s in
    let at = reads at_sign s in if is_local c then on else if is_at c then at else false
reads at_sign (c ∷ s) = let on = reads domain s in if is_domain c then on else false
reads domain (c ∷ s) =
    let on = reads domain s in
    let end = reads dot s in if is_domain c then on else if is_dot c then end else false
reads dot (c ∷ s) = is_end c

abbrev pub found : List Rest → Bool
found rs = not (is_empty rs)

found-append : (xs ys : List Rest) → found (xs ++ ys) ≡ (found xs || found ys)
found-append [] ys = refl
found-append (x ∷ xs) ys = refl

found-in_turn-append :
    (f : Rest → List Rest) (xs ys : List Rest)
    → found (in_turn f (xs ++ ys)) ≡ (found (in_turn f xs) || found (in_turn f ys))
found-in_turn-append f [] ys = refl
found-in_turn-append f (x ∷ xs) ys =
    found-append (f x) (in_turn f (xs ++ ys))
    ∙ ap (λ b. found (f x) || b) (found-in_turn-append f xs ys)
    ∙ or_assoc (found (f x)) (found (in_turn f xs)) (found (in_turn f ys))
    ∙ ap (λ b. b || found (in_turn f ys)) (sym (found-append (f x) (in_turn f xs)))
  where
    or_assoc : (a b c : Bool) → (a || (b || c)) ≡ ((a || b) || c)
    or_assoc true b c = refl
    or_assoc false b c = refl

or_false : (a : Bool) → (a || false) ≡ a
or_false true = refl
or_false false = refl

found-single : (f : Rest → List Rest) (r : Rest) → found (in_turn f (r ∷ [])) ≡ found (f r)
found-single f r = found-append (f r) [] ∙ or_false (found (f r))

-- A run of a class, and then something else: now, or one character later.
found-runs :
    (p : ℕ → Bool) (f : Rest → List Rest) (c : ℕ) (s : Text)
    → found (in_turn f (runs p (c ∷ s))) ≡ (
        if p c
        then found (in_turn f (runs p s)) || found (f (record { before = some c; rest = s }))
        else false)
found-runs p f c s = elim (Bool-cases (p c)) [
  | inr other ↦ rw other refl
  | inl is ↦
      let r : Rest = record { before = some c; rest = s } in
      rw is (
        found-in_turn-append f (runs p s) (r ∷ [])
        ∙ ap (λ b. found (in_turn f (runs p s)) || b) (found-single f r))
]

found-one :
    (p : ℕ → Bool) (f : Rest → List Rest) (c : ℕ) (s : Text)
    → found (in_turn f (one_of p (c ∷ s)))
      ≡ (if p c then found (f (record { before = some c; rest = s })) else false)
found-one p f c s = elim (Bool-cases (p c)) [
  | inr other ↦ rw other refl
  | inl is ↦ rw is (found-single f (record { before = some c; rest = s }))
]

-- A run of `p`, then a separator `q`, then what `then_on` asks for, read by one character at a time.
module _ (p q : ℕ → Bool) (f : Rest → List Rest) (then_on go_on : Text → Bool)
    (apart : (c : ℕ) → p c ≡ true → q c ≡ false)
    (f-nil : (b : Option ℕ) → found (f (record { before = b; rest = [] })) ≡ false)
    (f-cons : (b : Option ℕ) (c : ℕ) (s : Text)
      → found (f (record { before = b; rest = c ∷ s })) ≡ (if q c then then_on s else false))
    (on-nil : go_on [] ≡ false)
    (on-cons : (c : ℕ) (s : Text)
      → go_on (c ∷ s) ≡ (if p c then go_on s else if q c then then_on s else false)) where
  run_or_now :
      (b : Option ℕ) (s : Text)
      → (found (in_turn f (runs p s)) || found (f (record { before = b; rest = s }))) ≡ go_on s
  run_or_now b [] = f-nil b ∙ sym on-nil
  run_or_now b (c ∷ s) = elim (Bool-cases (p c)) [
    | inl is ↦
        rw (found-runs p f c s, f-cons b c s, on-cons c s, is, apart c is)
          (or_false
              (found (in_turn f (runs p s)) || found (f (record { before = some c; rest = s })))
            ∙ run_or_now (some c) s)
    | inr other ↦ rw (found-runs p f c s, f-cons b c s, on-cons c s, other) refl
  ]

  run_first :
      (c : ℕ) (s : Text) → found (in_turn f (runs p (c ∷ s))) ≡ (if p c then go_on s else false)
  run_first c s =
      found-runs p f c s ∙ ap (λ (b : Bool). if p c then b else false) (run_or_now (some c) s)

module _ (w : ℕ → Bool) where
  abbrev after_domain : Rest → List Rest
  after_domain = match w (seq (one is_dot) (many is_end))

  abbrev after_local : Rest → List Rest
  after_local = match w (seq (one is_at) (seq (many is_domain) (seq (one is_dot) (many is_end))))

  ends-reads : (s : Text) → found (runs is_end s) ≡ reads dot s
  ends-reads [] = refl
  ends-reads (c ∷ s) = elim (Bool-cases (is_end c)) [
    | inl is ↦ rw is (found-append (runs is_end s) _ ∙ or_true (found (runs is_end s)))
    | inr other ↦ rw other refl
  ]
    where
      or_true : (a : Bool) → (a || true) ≡ true
      or_true true = refl
      or_true false = refl

  domain_not_dot : (c : ℕ) → is_domain c ≡ true → is_dot c ≡ false
  domain_not_dot c h = ground arith

  local_not_at : (c : ℕ) → is_local c ≡ true → is_at c ≡ false
  local_not_at c h = ground arith

  after_domain-reads :
      (b : Option ℕ) (c : ℕ) (s : Text)
      → found (after_domain (record { before = b; rest = c ∷ s }))
        ≡ (if is_dot c then reads dot s else false)
  unfolding match
  after_domain-reads b c s =
      found-one is_dot (match w (many is_end)) c s
      ∙ ap (λ (x : Bool). if is_dot c then x else false) (ends-reads s)

  domain-reads : (s : Text) → found (in_turn after_domain (runs is_domain s)) ≡ reads at_sign s
  unfolding match
  domain-reads [] = refl
  domain-reads (c ∷ s) =
      run_first is_domain is_dot after_domain (reads dot) (reads domain) domain_not_dot (λ b. refl)
        after_domain-reads refl (λ d t. refl) c s

  after_local-reads :
      (b : Option ℕ) (c : ℕ) (s : Text)
      → found (after_local (record { before = b; rest = c ∷ s }))
        ≡ (if is_at c then reads at_sign s else false)
  unfolding match
  after_local-reads b c s =
      found-one is_at (λ r. in_turn after_domain (runs is_domain r.rest)) c s
      ∙ ap (λ (x : Bool). if is_at c then x else false) (domain-reads s)

  -- The pattern matches at a place exactly if the text goes on from there as an address.
  pub email-reads :
      (b : Option ℕ) (s : Text)
      → found (match w email_pattern (record { before = b; rest = s })) ≡ reads start s
  unfolding match email_pattern
  email-reads b [] = refl
  email-reads b (c ∷ s) =
      run_first is_local is_at after_local (reads at_sign) (reads inside) local_not_at (λ d. refl)
        after_local-reads refl (λ d t. refl) c s
