-- ===== src/Scout/Webhook.antt =====
-- `_verify_webhook_signature` of src/backend/api/scout.py. HMAC-SHA256 is not part of the program:
-- it is the parameter `hexdigest`, from the secret and the body to the digest's text.
use Prim.Native.String
use tristar.Base.{
  ℕ, String, Bool, true, false, ◌&&◌, Option, none, some, List, [], ◌∷◌, ◌≡◌, arith, ltb, codes,
  Text, ◌==◌, eq_iff, if◌then◌else◌,
}
use tristar.Outcome.{Result, ok, err}
use tristar.Core.Config.{Settings}

-- `hmac.compare_digest` takes texts of ASCII characters only, and raises for any other
pub data NotAscii : Type 0 where
  not_ascii : NotAscii

abbrev is_ascii : Text → Bool
is_ascii [] = true
is_ascii (c ∷ s) = ltb c 128 && is_ascii s

abbrev compare_digest : String → String → Result NotAscii Bool
compare_digest a b = if is_ascii (codes a) && is_ascii (codes b) then ok (a == b) else err not_ascii

module _ (hexdigest : String → List ℕ → String) where
  abbrev pub signature_of : Settings → List ℕ → String
  signature_of cfg body = String.◌++◌ "sha256=" (hexdigest cfg.scout_webhook_secret body)

  unfoldable pub verify_webhook_signature : Settings → List ℕ → Option String → Result NotAscii Bool
  verify_webhook_signature cfg body none = ok false
  verify_webhook_signature cfg body (some signature) =
      if signature == "" then ok false else compare_digest (signature_of cfg body) signature

  -- A body is accepted only with the signature that the secret gives it.
  pub verified_signature :
      (cfg : Settings) (body : List ℕ) (signature : Option String)
      → verify_webhook_signature cfg body signature ≡ ok true
      → signature ≡ some (signature_of cfg body)
  unfolding verify_webhook_signature
  verified_signature cfg body none h = ground arith
  verified_signature cfg body (some s) h = ground (arith, eq_iff (signature_of cfg body) s)
