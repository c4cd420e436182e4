-- ===== src/AuditLog/Scrub/Clean.antt =====
-- What `_scrub_pii` leaves of a text.
use tristar.Base.{
  ℕ, zero, suc, ◌-◌, Bool, true, false, Option, none, some, List, [], ◌∷◌, ◌++◌, ◌≡◌, inl, inr,
  refl, arith, sym, ◌∙◌, Bool-cases, Option-cases, if◌then◌else◌, length, Text, codes,
}
use mathlib.Core.Path.{subst}
use tristar.AuditLog.Regex.{Regex, Rest, match, first, sub_from, sub}
use tristar.AuditLog.Scrub.{
  is_local, is_domain, is_at, is_dot, email_pattern, Unicode, phone_pattern, scrub_pii,
}
use tristar.AuditLog.Scrub.Emails.{
  Progress, start, inside, at_sign, domain, dot, reads, found, email-reads,
}

-- At no place of the text does an address begin.
abbrev Clean : Text → Type 0
Clean [] = Unit {0}
Clean (c ∷ s) = (reads start (c ∷ s) ≡ false) × Clean s

-- A replacement that is part of no address, whatever follows it.
record IsSealed (replacement : Text) : Type 0 where
  ends : (q : Progress) (s : Text) → reads q (replacement ++ s) ≡ false
  clean : (s : Text) → Clean s → Clean (replacement ++ s)

if_mono :
    (b : Bool) {x y x' y' : Bool}
    → (x ≡ true → x' ≡ true)
    → (y ≡ true → y' ≡ true)
    → (if b then x else y) ≡ true
    → (if b then x' else y') ≡ true
if_mono true f g h = f h
if_mono false f g h = g h

-- One more character in front.
reads-cons :
    (q : Progress) (c : ℕ) (s t : Text)
    → ((p : Progress) → reads p t ≡ true → reads p s ≡ true)
    → reads q (c ∷ t) ≡ true
    → reads q (c ∷ s) ≡ true
reads-cons start c s t ih h = if_mono (is_local c) (ih inside) (λ e. e) h
reads-cons inside c s t ih h =
    if_mono (is_local c) (ih inside) (if_mono (is_at c) (ih at_sign) (λ e. e)) h
reads-cons at_sign c s t ih h = if_mono (is_domain c) (ih domain) (λ e. e) h
reads-cons domain c s t ih h =
    if_mono (is_domain c) (ih domain) (if_mono (is_dot c) (ih dot) (λ e. e)) h
reads-cons dot c s t ih h = h

module _ (w : ℕ → Bool) (x : Regex) (replacement : Text) (sealed : IsSealed replacement) where
  abbrev place : Option ℕ → Text → Option Rest
  place b s = first (match w x (record { before = b; rest = s }))

  sub-none :
      (b : Option ℕ) (c : ℕ) (s : Text)
      → place b (c ∷ s) ≡ none
      → sub_from w x replacement zero b (c ∷ s) ≡ c ∷ sub_from w x replacement zero (some c) s
  unfolding sub_from
  sub-none b c s e = rw (sub_from, e) refl

  sub-some :
      (b : Option ℕ) (c : ℕ) (s : Text) (r : Rest)
      → place b (c ∷ s) ≡ some r
      → sub_from w x replacement zero b (c ∷ s)
        ≡ replacement ++ sub_from w x replacement (length s - length r.rest) (some c) s
  unfolding sub_from
  sub-some b c s r e = rw (sub_from, e) refl

  sub-skip :
      (skip : ℕ) (b : Option ℕ) (c : ℕ) (s : Text)
      → sub_from w x replacement (suc skip) b (c ∷ s) ≡ sub_from w x replacement skip (some c) s
  unfolding sub_from
  sub-skip skip b c s = refl

  -- An address in what is left has been there before.
  reads_before :
      (q : Progress) (b : Option ℕ) (s : Text)
      → reads q (sub_from w x replacement zero b s) ≡ true
      → reads q s ≡ true
  reads_before q b [] h = unfold sub_from in h
  reads_before q b (c ∷ s) h = elim (Option-cases (place b (c ∷ s))) [
    | inr (r, e) ↦
        let gone = sealed.ends q (sub_from w x replacement (length s - length r.rest) (some c) s) in
        let still = subst (λ t. reads q t ≡ true) (sub-some b c s r e) h in absurd (ground arith)
    | inl e ↦
        reads-cons q c s (sub_from w x replacement zero (some c) s) (λ p. reads_before p (some c) s)
          (subst (λ t. reads q t ≡ true) (sub-none b c s e) h)
  ]

  -- `P` is what is known of the text; where the pattern does not match, no address begins.
  module _ (P : Text → Type 0) (P-tail : (c : ℕ) (s : Text) → P (c ∷ s) → P s)
      (safe : (b : Option ℕ) (c : ℕ) (s : Text)
        → P (c ∷ s)
        → place b (c ∷ s) ≡ none
        → reads start (c ∷ s) ≡ false) where
    sub_from-Clean :
        (skip : ℕ) (b : Option ℕ) (s : Text) → P s → Clean (sub_from w x replacement skip b s)
    sub_from-Clean skip b [] k = unfold sub_from in tt
    sub_from-Clean (suc skip) b (c ∷ s) k =
        subst Clean (sym (sub-skip skip b c s)) (sub_from-Clean skip (some c) s (P-tail c s k))
    sub_from-Clean zero b (c ∷ s) k = elim (Option-cases (place b (c ∷ s))) [
      | inr (r, e) ↦
          subst Clean (sym (sub-some b c s r e))
            (sealed.clean _ (sub_from-Clean (length s - length r.rest) (some c) s (P-tail c s k)))
      | inl e ↦
          subst Clean (sym (sub-none b c s e))
            (none_begins b c s k e, sub_from-Clean zero (some c) s (P-tail c s k))
    ]
      where
        none_begins :
            (b : Option ℕ) (c : ℕ) (s : Text)
            → P (c ∷ s)
            → place b (c ∷ s) ≡ none
            → reads start (c ∷ sub_from w x replacement zero (some c) s) ≡ false
        none_begins b c s k e =
            elim (Bool-cases (reads start (c ∷ sub_from w x replacement zero (some c) s))) [
              | inr no_more ↦ no_more
              | inl still ↦
                  let was =
                    reads-cons start c s (sub_from w x replacement zero (some c) s)
                      (λ p. reads_before p (some c) s) still in
                  let not_there = safe b c s k e in absurd (ground arith)
            ]

email-IsSealed : IsSealed (codes "[EMAIL_REDACTED]")
email-IsSealed = record { ends = ends; clean = λ s k. search k }
  where
    ends : (q : Progress) (s : Text) → reads q (codes "[EMAIL_REDACTED]" ++ s) ≡ false
    ends start s = refl
    ends inside s = refl
    ends at_sign s = refl
    ends domain s = refl
    ends dot s = refl

phone-IsSealed : IsSealed (codes "[PHONE_REDACTED]")
phone-IsSealed = record { ends = ends; clean = λ s k. search k }
  where
    ends : (q : Progress) (s : Text) → reads q (codes "[PHONE_REDACTED]" ++ s) ≡ false
    ends start s = refl
    ends inside s = refl
    ends at_sign s = refl
    ends domain s = refl
    ends dot s = refl

unmatched : (rs : List Rest) → first rs ≡ none → found rs ≡ false
unmatched [] e = refl
unmatched (r ∷ rs) e = absurd (ground arith)

emails_gone :
    (w : ℕ → Bool) (text : Text) → Clean (sub w email_pattern (codes "[EMAIL_REDACTED]") text)
unfolding sub
emails_gone w text =
    sub_from-Clean w email_pattern (codes "[EMAIL_REDACTED]") email-IsSealed (λ s. Unit {0})
      (λ c s k. tt) (λ b c s k e. sym (email-reads w b (c ∷ s)) ∙ unmatched _ e) zero none text tt

scrub_pii-Clean : (u : Unicode) (text : Text) → Clean (scrub_pii u text)
unfolding scrub_pii
scrub_pii-Clean u text =
    phones (sub u.is_word email_pattern (codes "[EMAIL_REDACTED]") text)
      (emails_gone u.is_word text)
  where
    phones :
        (s : Text) → Clean s → Clean (sub u.is_word (phone_pattern u) (codes "[PHONE_REDACTED]") s)
    phones s k =
        unfold sub in
        sub_from-Clean u.is_word (phone_pattern u) (codes "[PHONE_REDACTED]") phone-IsSealed Clean
          (λ c t k. k.1) (λ b c t k e. k.0) zero none s k

Clean-suffix : (before after : Text) → Clean (before ++ after) → reads start after ≡ false
Clean-suffix [] [] k = refl
Clean-suffix [] (c ∷ s) k = k.0
Clean-suffix (c ∷ s) after k = Clean-suffix s after k.1

unfound : (rs : List Rest) → found rs ≡ false → rs ≡ []
unfound [] e = refl
unfound (r ∷ rs) e = absurd (ground arith)

-- At no place of a text that `_scrub_pii` has been over does the pattern of an email match, whatever the text
-- was, whatever the classes of Unicode and whatever stands before the place.
pub scrub_pii-no_email :
    (u : Unicode) (text before after : Text) (b : Option ℕ)
    → scrub_pii u text ≡ before ++ after
    → match u.is_word email_pattern (record { before = b; rest = after }) ≡ []
scrub_pii-no_email u text before after b split = unfound _ (
    email-reads u.is_word b after
    ∙ Clean-suffix before after (subst Clean split (scrub_pii-Clean u text)))
