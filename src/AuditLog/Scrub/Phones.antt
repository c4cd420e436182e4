-- ===== src/AuditLog/Scrub/Phones.antt =====
-- What `_scrub_pii` leaves of telephone numbers.
use tristar.Base.{
  ℕ, zero, suc, Bool, true, false, ◌||◌, Option, none, some, List, [], ◌∷◌, ◌++◌, ◌≡◌, inl, inr,
  refl, arith, sym, Bool-cases, Option-cases, Text, codes, All, nat_eq,
}
use mathlib.Core.Path.{subst}
use tristar.AuditLog.Regex.{
  Regex, one, maybe, seq, boundary, Rest, word_at, differ, first, match, sub_from, sub,
}
use tristar.AuditLog.Scrub.{
  Unicode, separator, char, three, phone_pattern, scrub_pii, email_pattern,
}
use tristar.AuditLog.Scrub.Places.{any, Avoids, match-Follows, made-none, made-some}
use tristar.AuditLog.Scrub.Landing.{
  first-All, Landed, Lands, seq-Lands, digit-Lands, EndsAt, Landed-EndsAt,
}

-- Every digit is a character of a word; `[` is no space, `]` is no character of a word, and nothing in
-- the text of the redaction is a digit.
pub record IsUnicode (u : Unicode) : Type 0 where
  pub digit_word : (c : ℕ) → u.is_digit c ≡ true → u.is_word c ≡ true
  pub plain : All (λ c. u.is_digit c ≡ false) (codes "[PHONE_REDACTED]")
  pub no_space : u.is_space b'[' ≡ false
  pub no_word : u.is_word b']' ≡ false

-- the character before the end of the text, with `b` before its beginning
abbrev pub last_of : Option ℕ → Text → Option ℕ
last_of b [] = b
last_of b (c ∷ s) = last_of (some c) s

unmatched : (rs : List Rest) → first rs ≡ none → any (λ r. true) rs ≡ false
unmatched [] e = refl
unmatched (r ∷ rs) e = absurd (ground arith)

unfound : (rs : List Rest) → any (λ r. true) rs ≡ false → rs ≡ []
unfound [] e = refl
unfound (r ∷ rs) e = absurd (ground arith)

module _ (u : Unicode) (is : IsUnicode u) where
  open u use {is_digit, is_space, is_word}

  -- `_PHONE_PATTERN` without its first `\b`
  abbrev digits : Regex
  digits = seq (maybe (seq (maybe (char u b'+')) (seq (char u b'1') (separator u)))) (
      seq (maybe (char u b'(')) (
        seq (three u) (
          seq (maybe (char u b')')) (
            seq (separator u)
              (seq (three u) (seq (separator u) (seq (three u) (seq (one is_digit) boundary))))))))

  pattern-eq : phone_pattern u ≡ seq boundary digits
  unfolding phone_pattern
  pattern-eq = refl

  digits-Avoids : Avoids b'[' digits
  digits-Avoids = search (is.plain.0, is.no_space)

  pattern-Lands : Lands is_word (seq boundary digits)
  pattern-Lands =
      let a = digits-Avoids in
      then_on boundary digits tt (
        then_on _ _ a.0 (
          then_on _ _ a.1.0 (
            then_on _ _ a.1.1.0 (
              then_on _ _ a.1.1.1.0 (
                then_on _ _ a.1.1.1.1.0 (
                  then_on _ _ a.1.1.1.1.1.0 (
                    then_on _ _ a.1.1.1.1.1.1.0 (
                      then_on _ _ a.1.1.1.1.1.1.1.0
                        (digit-Lands is_word is_digit is.digit_word)))))))))
    where
      then_on : (x y : Regex) → Avoids b'[' x → Lands is_word y → Lands is_word (seq x y)
      then_on x y = seq-Lands is_word b'[' x y

  abbrev matches : Option ℕ → Text → List Rest
  matches b s = match is_word (seq boundary digits) (record { before = b; rest = s })

  -- At no place of the text does the pattern match.
  abbrev Free : Option ℕ → Text → Type 0
  Free b [] = matches b [] ≡ []
  Free b (c ∷ s) = (matches b (c ∷ s) ≡ []) × Free (some c) s

  abbrev begins : ℕ → Bool
  begins c = nat_eq c b'+' || (nat_eq c b'1' || nat_eq c b'(')

  none_at_end : (b : Option ℕ) → matches b [] ≡ []
  unfolding match
  none_at_end b = elim (Bool-cases (differ (word_at is_word b) false)) [
    | inl edge_here ↦ rw edge_here refl
    | inr other ↦ rw other refl
  ]

  none_before :
      (b : Option ℕ) (c : ℕ) (s : Text)
      → is_digit c ≡ false
      → begins c ≡ false
      → matches b (c ∷ s) ≡ []
  unfolding match
  none_before b c s d h =
      let plus : nat_eq c b'+' ≡ false = ground arith in
      let prefix : nat_eq c b'1' ≡ false = ground arith in
      let opening : nat_eq c b'(' ≡ false = ground arith in
      elim (Bool-cases (differ (word_at is_word b) (is_word c))) [
        | inl edge_here ↦ rw (edge_here, plus, prefix, opening, d) refl
        | inr other ↦ rw other refl
      ]

  none_inside : (c : ℕ) (s : Text) → is_word c ≡ false → matches (some b']') (c ∷ s) ≡ []
  unfolding match
  none_inside c s h = rw (is.no_word, h) refl

  prefix-Free :
      (l : Text) (b : Option ℕ) (t : Text)
      → All (λ c. is_digit c ≡ false) l
      → All (λ c. begins c ≡ false) l
      → Free (last_of b l) t
      → Free b (l ++ t)
  prefix-Free [] b t d h f = f
  prefix-Free (c ∷ l) b t d h f =
      (none_before b c (l ++ t) d.0 h.0, prefix-Free l (some c) t d.1 h.1 f)

  redacted-Free :
      (b : Option ℕ) (t : Text) → Free (some b']') t → Free b (codes "[PHONE_REDACTED]" ++ t)
  redacted-Free b t f = prefix-Free (codes "[PHONE_REDACTED]") b t is.plain (search) f

  -- what `sub` makes of a text
  abbrev scrubbed : ℕ → Option ℕ → Text → Text
  scrubbed skip b s = sub_from is_word (seq boundary digits) (codes "[PHONE_REDACTED]") skip b s

  nothing_left :
      (b : Option ℕ) (c : ℕ) (s : Text)
      → first (matches b (c ∷ s)) ≡ none
      → matches b (scrubbed zero b (c ∷ s)) ≡ []
  nothing_left b c s e =
      unfound _ (elim (Bool-cases (any (λ r. true) (matches b (scrubbed zero b (c ∷ s))))) [
        | inr no_more ↦ no_more
        | inl still ↦
            let was =
              match-Follows is_word digits b'[' (codes "PHONE_REDACTED]") (seq boundary digits)
                (λ r. true) (λ r. true) (tt, digits-Avoids) (λ b' s' h. refl) b (c ∷ s) still in
            absurd (ground (arith, was, unmatched (matches b (c ∷ s)) e))
      ])

  replaced-Free :
      (b b' : Option ℕ) (c : ℕ) (s : Text) (r : Rest)
      → ((k : ℕ) (a : Option ℕ) → EndsAt is_word k s → Free (some b']') (scrubbed k a s))
      → first (matches b (c ∷ s)) ≡ some r
      → Free b' (scrubbed zero b (c ∷ s))
  replaced-Free b b' c s r cut e =
      let landed =
        first-All (Landed is_word s) (matches b (c ∷ s)) r
          (pattern-Lands c s (record { before = b; rest = c ∷ s }) ([], refl)) e in
      subst (Free b') (sym (made-some is_word digits b'[' (codes "PHONE_REDACTED]") b c s r e))
        (redacted-Free b' _ (cut _ (some c) (Landed-EndsAt is_word s r landed)))

  module _ (c : ℕ) (s : Text) (kept : (b : Option ℕ) → Free b (scrubbed zero b s))
      (cut : (k : ℕ) (b : Option ℕ) → EndsAt is_word k s → Free (some b']') (scrubbed k b s)) where
    is_kept :
        (b : Option ℕ)
        → first (matches b (c ∷ s)) ≡ none
        → scrubbed zero b (c ∷ s) ≡ c ∷ scrubbed zero (some c) s
    is_kept b e = made-none is_word digits b'[' (codes "PHONE_REDACTED]") b c s e

    kept-Free : (b : Option ℕ) → Free b (scrubbed zero b (c ∷ s))
    kept-Free b = elim (Option-cases (first (matches b (c ∷ s)))) [
      | inr (r, e) ↦ replaced-Free b b c s r cut e
      | inl e ↦
          subst (Free b) (sym (is_kept b e))
            (subst (λ t. matches b t ≡ []) (is_kept b e) (nothing_left b c s e), kept (some c))
    ]

    cut-Free :
        (k : ℕ) (b : Option ℕ) → EndsAt is_word k (c ∷ s) → Free (some b']') (scrubbed k b (c ∷ s))
    cut-Free (suc k) b h = unfold sub_from in cut k (some c) h
    cut-Free zero b h = elim (Option-cases (first (matches b (c ∷ s)))) [
      | inr (r, e) ↦ replaced-Free b (some b']') c s r cut e
      | inl e ↦ subst (Free (some b']')) (sym (is_kept b e)) (none_inside c _ h, kept (some c))
    ]

  scrubbed-Free :
      (s : Text)
      → ((b : Option ℕ) → Free b (scrubbed zero b s))
        × ((k : ℕ) (b : Option ℕ) → EndsAt is_word k s → Free (some b']') (scrubbed k b s))
  scrubbed-Free [] =
      (λ b. unfold sub_from in none_at_end b, λ k b h. unfold sub_from in none_at_end (some b']'))
  scrubbed-Free (c ∷ s) =
      let (kept, cut) = scrubbed-Free s in (kept-Free c s kept cut, cut-Free c s kept cut)

  Free-here : (b : Option ℕ) (s : Text) → Free b s → matches b s ≡ []
  Free-here b [] f = f
  Free-here b (c ∷ s) f = f.0

  Free-suffix :
      (b : Option ℕ) (before after : Text)
      → Free b (before ++ after)
      → matches (last_of b before) after ≡ []
  Free-suffix b [] after f = Free-here b after f
  Free-suffix b (c ∷ before) after f = Free-suffix (some c) before after f.1

-- At no place of a text that `_scrub_pii` has been over does the pattern of a telephone number match, whatever
-- the text was, where the classes of Unicode are such that every digit is a character of a word, `[` is no
-- space, `]` is no character of a word, and "[PHONE_REDACTED]" has no digit.
pub scrub_pii-no_phone :
    (u : Unicode) (text before after : Text)
    → IsUnicode u
    → scrub_pii u text ≡ before ++ after
    → match u.is_word (phone_pattern u) (record { before = last_of none before; rest = after }) ≡ []
unfolding scrub_pii sub phone_pattern
scrub_pii-no_phone u text before after is split =
    let emailless = sub u.is_word email_pattern (codes "[EMAIL_REDACTED]") text in
    Free-suffix u is none before after
      (subst (Free u is none) split ((scrubbed-Free u is emailless).0 none))
