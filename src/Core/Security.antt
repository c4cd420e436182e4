-- ===== src/Core/Security.antt =====
-- src/backend/core/security.py: who the caller is, and role checks. `jwt.decode` is not part of the
-- program, and is the parameter `decode`.
use tristar.Base.{String, Option, none, some, ◌==◌, if◌then◌else◌}
use tristar.Outcome.{Result, ok, err}
use tristar.Core.Http.{
  HttpError, http, token_expired, token_invalid, subject_missing, role_required,
}

-- the claims that the code reads: `sub` and `role`
pub record Claims : Type 0 where
  pub sub : Option String
  pub role : Option String

-- what `jwt.decode` does: it returns the claims or raises one of two errors
pub data Decoded : Type 0 where
  claims : Claims → Decoded
  expired_signature invalid_token : Decoded

pub record AuthUser : Type 0 where
  pub user_id : String
  pub role : String

abbrev role_or_empty : Option String → String
role_or_empty none = ""
role_or_empty (some r) = r

abbrev user_of : Option String → String → Result HttpError AuthUser
user_of none role = err (http 401 subject_missing)
user_of (some sub) role =
    if sub == "" then err (http 401 subject_missing) else ok (record { user_id = sub; role = role })

module _ (decode : String → Decoded) where
  -- `get_current_user`, with `_decode_token`
  unfoldable pub get_current_user : String → Result HttpError AuthUser
  get_current_user token = elim (decode token) [
    | expired_signature ↦ err (http 401 token_expired)
    | invalid_token ↦ err (http 401 token_invalid)
    | claims c ↦ user_of c.sub (role_or_empty c.role)
  ]

-- the test of `require_marketing_role` and `require_system_role`
unfoldable pub check_role : String → AuthUser → Result HttpError AuthUser
check_role wanted user =
    if user.role == wanted then ok user else err (http 403 (role_required wanted user.role))

module _ (decode : String → Decoded) where
  unfoldable pub require_role : String → String → Result HttpError AuthUser
  unfolding check_role
  require_role wanted token = elim (get_current_user decode token) [
    | err e ↦ err e
    | ok user ↦ check_role wanted user
  ]

  abbrev require_marketing_role : String → Result HttpError AuthUser
  require_marketing_role = require_role "marketing"

  abbrev pub require_system_role : String → Result HttpError AuthUser
  require_system_role = require_role "system"
