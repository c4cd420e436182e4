-- ===== src/Tests/AuditLog.antt =====
-- Texts with an address and a telephone number in them.
use tristar.Base.{arith, some, [], ◌≡◌, refl, ◌||◌, ◌&&◌, leb, nat_eq, Text, codes}
use tristar.AuditLog.Regex.{match}
use tristar.AuditLog.Scrub.{email_pattern, phone_pattern, Unicode, scrub_pii}
use tristar.AuditLog.Scrub.Clean.{scrub_pii-no_email}
use tristar.AuditLog.Scrub.Phones.{IsUnicode, scrub_pii-no_phone}

-- The classes as far as ASCII goes.
abbrev ascii : Unicode
ascii = record {
  is_digit = λ c. leb b'0' c && leb c b'9';
  is_space = λ c. nat_eq c b' ' || (leb 9 c && leb c 13);
  is_word = λ c.
      (leb b'0' c && leb c b'9')
      || (leb b'a' c && leb c b'z')
      || (leb b'A' c && leb c b'Z')
      || nat_eq c b'_';
}

abbrev objective : Text
objective = codes "Ask a.b@c.ca, or (416) 555-1234; call 14165551234 for x@y"

scrubbed :
    scrub_pii ascii objective
    ≡ codes "Ask [EMAIL_REDACTED], or ([PHONE_REDACTED]; call [PHONE_REDACTED] for x@y"
unfolding scrub_pii
scrubbed = refl

scrub_pii-no_email_example :
    match ascii.is_word email_pattern
      (record { before = some b' '; rest = codes "[EMAIL_REDACTED]" })
    ≡ []
unfolding scrub_pii
scrub_pii-no_email_example =
    scrub_pii-no_email ascii (codes "Ask a.b@c.ca") (codes "Ask ") (codes "[EMAIL_REDACTED]")
      (some b' ') refl

ascii-IsUnicode : IsUnicode ascii
ascii-IsUnicode = record {
  digit_word = λ c h. ground arith;
  plain = search;
  no_space = refl;
  no_word = refl;
}

scrub_pii-no_phone_example :
    match ascii.is_word
      (phone_pattern ascii)
      (record { before = some b' '; rest = codes "[PHONE_REDACTED] now" })
    ≡ []
unfolding scrub_pii
scrub_pii-no_phone_example =
    scrub_pii-no_phone ascii (codes "Call 1 416-555.1234 now") (codes "Call ")
      (codes "[PHONE_REDACTED] now") ascii-IsUnicode refl
