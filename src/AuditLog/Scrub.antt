-- ===== src/AuditLog/Scrub.antt =====
-- `_scrub_pii` in src/backend/services/audit_log_service.py, and what `log_generation` writes of an
-- objective. Texts are code points; the Unicode classes `\d`, `\s` and `\w` are parameters.
pub mod Emails
pub mod Places
pub mod Landing
pub mod Phones
pub mod Clean
use tristar.Base.{ℕ, Bool, ◌||◌, ◌&&◌, leb, nat_eq, Text, codes, take, String}
use tristar.AuditLog.Regex.{Regex, one, many, maybe, seq, boundary, sub}

abbrev is_letter : ℕ → Bool
is_letter c = (leb b'a' c && leb c b'z') || (leb b'A' c && leb c b'Z')

abbrev is_ascii_digit : ℕ → Bool
is_ascii_digit c = leb b'0' c && leb c b'9'

-- `[a-zA-Z0-9_.+-]`
abbrev pub is_local : ℕ → Bool
is_local c =
    is_letter c
    || is_ascii_digit c
    || nat_eq c b'_'
    || nat_eq c b'.'
    || nat_eq c b'+'
    || nat_eq c b'-'

-- `[a-zA-Z0-9-]`
abbrev pub is_domain : ℕ → Bool
is_domain c = is_letter c || is_ascii_digit c || nat_eq c b'-'

-- `[a-zA-Z0-9-.]`
abbrev pub is_end : ℕ → Bool
is_end c = is_domain c || nat_eq c b'.'

abbrev pub is_at : ℕ → Bool
is_at c = nat_eq c b'@'

abbrev pub is_dot : ℕ → Bool
is_dot c = nat_eq c b'.'

-- `_EMAIL_PATTERN`
unfoldable pub email_pattern : Regex
email_pattern =
    seq (many is_local) (seq (one is_at) (seq (many is_domain) (seq (one is_dot) (many is_end))))

-- what the module `re` knows of Unicode
pub record Unicode : Type 0 where
  pub is_digit : ℕ → Bool
  pub is_space : ℕ → Bool
  pub is_word : ℕ → Bool

module _ (u : Unicode) where
  open u use {is_digit, is_space, is_word}

  -- `[-.\s]?`
  abbrev separator : Regex
  separator = maybe (one (λ c. nat_eq c b'-' || nat_eq c b'.' || is_space c))

  abbrev char : ℕ → Regex
  char c = one (λ d. nat_eq d c)

  abbrev three : Regex
  three = seq (one is_digit) (seq (one is_digit) (one is_digit))

  -- `_PHONE_PATTERN`
  unfoldable pub phone_pattern : Regex
  phone_pattern = seq boundary (
      seq (maybe (seq (maybe (char b'+')) (seq (char b'1') separator))) (
        seq (maybe (char b'(')) (
          seq three (
            seq (maybe (char b')')) (
              seq separator
                (seq three (seq separator (seq three (seq (one is_digit) boundary)))))))))

  -- `_scrub_pii`
  unfoldable pub scrub_pii : Text → Text
  unfolding sub email_pattern phone_pattern
  scrub_pii text =
      sub is_word phone_pattern (codes "[PHONE_REDACTED]")
        (sub is_word email_pattern (codes "[EMAIL_REDACTED]") text)

  -- the objective as `log_generation` writes it: `self._scrub_pii(offer.objective[:200])`
  unfoldable pub logged_objective : String → Text
  unfolding scrub_pii
  logged_objective objective = scrub_pii (take 200 (codes objective))
