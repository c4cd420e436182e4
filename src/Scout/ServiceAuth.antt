-- ===== src/Scout/ServiceAuth.antt =====
-- src/backend/services/scout_service_auth.py: the service token of Scout, and its refresh. Times
-- are naive UTC, in microseconds. `jwt.encode` is the parameter `encode`: it is given the times
-- `iat` and `exp`, and the other claims and the key do not vary.
use tristar.Base.{
  ℕ, ◌+◌, ◌-◌, ◌*◌, ◌/◌, ◌≤◌, ◌<◌, String, Bool, true, false, Option, none, some, ◌≡◌, refl, arith,
  leb, if◌then◌else◌, Bool-cases, inl, inr,
}
use tristar.Clock.{hour}

pub record Auth : Type 0 where
  pub token : Option String
  pub expires_at : Option ℕ
  pub expiry_hours : ℕ

abbrev pub new : ℕ → Auth
new hours = record { token = none; expires_at = none; expiry_hours = hours }

abbrev pub ttl : Auth → ℕ
ttl a = a.expiry_hours * hour

module _ (encode : ℕ → ℕ → String) where
  -- `_generate`
  unfoldable pub generate : Auth → ℕ → String × Auth
  generate a now =
      let expires_at = now + ttl a in
      let token = encode now expires_at in
      (token, record a { token = some token; expires_at = some expires_at })

abbrev refresh_due : ℕ → ℕ → Option String → Option ℕ → Bool
refresh_due now total none _ = true
refresh_due now total (some _) none = true
refresh_due now total (some _) (some expires_at) = leb (expires_at - total / 5) now

-- `_needs_refresh`: 0.2 of a whole number of hours is a whole number of microseconds
unfoldable pub needs_refresh : Auth → ℕ → Bool
needs_refresh a now = refresh_due now (ttl a) a.token a.expires_at

abbrev token_or : String → Option String → String
token_or d none = d
token_or d (some t) = t

module _ (encode : ℕ → ℕ → String) where
  -- `get_valid_token`, with the readings of the clock in `_needs_refresh` and in `_generate`
  unfoldable pub get_valid_token : Auth → ℕ → ℕ → String × Auth
  unfolding generate needs_refresh
  get_valid_token a now later =
      if needs_refresh a now then generate encode a later else (token_or "" a.token, a)

  -- The token on hand was made for the expiry that is noted beside it.
  abbrev Fits : ℕ → Option String → Option ℕ → Type 0
  Fits total none _ = Unit
  Fits total (some t) none = Unit
  Fits total (some t) (some exp) = (iat : ℕ) × (t ≡ encode iat exp) × (exp ≡ iat + total)

  abbrev pub IsConsistent : Auth → Type 0
  IsConsistent a = Fits (ttl a) a.token a.expires_at

  keep_token :
      (a : Auth) (token : Option String) (expires_at : Option ℕ) (total now : ℕ)
      → Fits total token expires_at
      → refresh_due now total token expires_at ≡ false
      → (iat : ℕ) × (token_or "" token ≡ encode iat (iat + total)) × (now + total / 5 < iat + total)
  keep_token a none exp total now f h = absurd (ground arith)
  keep_token a (some t) none total now f h = absurd (ground arith)
  keep_token a (some t) (some exp) total now (iat, p, q) h = (iat, ground arith, ground arith)

  -- The token that is handed out was made by the service, and more than a fifth of its time is left.
  pub get_valid_token-fresh :
      (a : Auth) (now later : ℕ)
      → IsConsistent a
      → 0 < a.expiry_hours
      → now ≤ later
      → (iat : ℕ) × ((get_valid_token a now later).0 ≡ encode iat (iat + ttl a))
        × (now + ttl a / 5 < iat + ttl a)
        × IsConsistent (get_valid_token a now later).1
  unfolding get_valid_token
  get_valid_token-fresh a now later f pos le =
      elim (Bool-cases (refresh_due now (ttl a) a.token a.expires_at)) [
        | inl due ↦ rw due (later, refl, omega arith, (later, refl, refl))
        | inr early ↦
            let (iat, made, left) = keep_token a a.token a.expires_at (ttl a) now f early in
            rw early (iat, made, left, f)
      ]
