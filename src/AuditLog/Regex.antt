-- ===== src/AuditLog/Regex.antt =====
-- The part of Python's `re` that src/backend/services/audit_log_service.py uses: classes of characters,
-- greedy `+` and `?`, sequence and `\b`, with the backtracking order of `re`, and `sub`. The classes of
-- Unicode, which `\b` asks for, are a parameter.
use tristar.Base.{
  ℕ, zero, suc, ◌-◌, Bool, true, false, not, Option, none, some, List, [], ◌∷◌, ◌++◌, if◌then◌else◌,
  length, Text,
}

pub data Regex : Type 0 where
  one : (ℕ → Bool) → Regex
  many : (ℕ → Bool) → Regex
  maybe : Regex → Regex
  seq : Regex → Regex → Regex
  boundary : Regex

-- what is left after a match: the character before, and the rest of the text
pub record Rest : Type 0 where
  pub before : Option ℕ
  pub rest : Text

-- the ways in which `[…]+` matches, the longest first
abbrev pub runs : (ℕ → Bool) → Text → List Rest
runs p [] = []
runs p (c ∷ s) =
    let longer = runs p s in if p c then longer ++ record { before = some c; rest = s } ∷ [] else []

abbrev pub in_turn : (Rest → List Rest) → List Rest → List Rest
in_turn f [] = []
in_turn f (r ∷ rs) = f r ++ in_turn f rs

abbrev pub one_of : (ℕ → Bool) → Text → List Rest
one_of p [] = []
one_of p (c ∷ s) = if p c then record { before = some c; rest = s } ∷ [] else []

-- the character `c`, or the end of the text, as `\w`
abbrev pub word_at : (ℕ → Bool) → Option ℕ → Bool
word_at is_word none = false
word_at is_word (some c) = is_word c

abbrev pub head : Text → Option ℕ
head [] = none
head (c ∷ s) = some c

abbrev pub differ : Bool → Bool → Bool
differ true b = not b
differ false b = b

abbrev pub first : List Rest → Option Rest
first [] = none
first (r ∷ rs) = some r

module _ (is_word : ℕ → Bool) where
  -- the matches at one place of a text, in the order in which `re` tries them
  unfoldable pub match : Regex → Rest → List Rest
  match (one p) r = one_of p r.rest
  match (many p) r = runs p r.rest
  match (maybe x) r = match x r ++ r ∷ []
  match (seq x y) r = in_turn (match y) (match x r)
  match boundary r =
      if differ (word_at is_word r.before) (word_at is_word (head r.rest)) then r ∷ [] else []

  -- `pattern.sub(replacement, text)`, for a pattern that matches no empty text; `skip` characters of the
  -- last match are still to be left out
  unfoldable pub sub_from : Regex → Text → ℕ → Option ℕ → Text → Text
  unfolding match
  sub_from x replacement skip before [] = []
  sub_from x replacement (suc skip) before (c ∷ s) = sub_from x replacement skip (some c) s
  sub_from x replacement zero before (c ∷ s) =
      elim (first (match x (record { before = before; rest = c ∷ s }))) [
        | none ↦ c ∷ sub_from x replacement zero (some c) s
        | some r ↦ replacement ++ sub_from x replacement (length s - length r.rest) (some c) s
      ]

  unfoldable pub sub : Regex → Text → Text → Text
  unfolding sub_from
  sub x replacement s = sub_from x replacement zero none s
