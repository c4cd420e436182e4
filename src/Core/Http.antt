-- ===== src/Core/Http.antt =====
-- `HTTPException`: the status code, and the detail by the template of its text.
use tristar.Base.{ℕ, String, List}
use tristar.Models.Offer.{OfferStatus, TriggerType, RiskSeverity, Warning}

pub data Detail : Type 0 where
  token_expired token_invalid subject_missing : Detail
  role_required : String → String → Detail
  active_needs_purchase : TriggerType → Detail
  invalid_transition : OfferStatus → OfferStatus → List OfferStatus → Detail
  already_exists : String → Detail
  not_found : String → Detail
  store_unavailable : Detail
  fraud_blocked : RiskSeverity → List Warning → String → Detail
  generation_failed unparseable : Detail
  hub_save_failed : Detail
  id_mismatch : String → String → Detail
  critical_flags : Detail
  bad_signature refund_event bad_amount : Detail
  invalid_body : Detail
  -- an exception that no handler of the program expects, which the framework answers with 500
  unexpected : Detail

pub record HttpError : Type 0 where
  pub status : ℕ
  pub detail : Detail

abbrev pub http : ℕ → Detail → HttpError
http s d = record { status = s; detail = d }

abbrev pub internal_error : HttpError
internal_error = http 500 Detail.unexpected
