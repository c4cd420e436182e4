-- ===== src/Main.antt =====
-- src/backend/main.py and src/backend/api/deps.py: the checks at the start, the health check, and the
-- choice of the store, the life of the application, and its handlers of exceptions.
use tristar.Base.{
  ℕ, Option, none, some, List, [], ◌∷◌, String, Bool, true, false, not, ◌≡◌, ◌≢◌, ◌⊎◌, ◌↔◌, ◌==◌,
  eq_iff, arith, if◌then◌else◌,
}
use tristar.Outcome.{Result, ok, err}
use tristar.Core.Config.{Settings}
use tristar.Models.Offer.{FraudCheckResult, RiskSeverity, Warning}
use tristar.Hub.Store.{HubStore, HubStoreLaws}
use tristar.Hub.Store.Memory.{memory_store}
use tristar.Hub.Store.Memory.Contract.{memory_laws}
use tristar.Hub.Store.Redis.{Redis, RedisLaws, redis_store}
use tristar.Hub.Store.Redis.Contract.{redis_laws}

-- the `RuntimeError` of a secret that still has its default
pub data InsecureSecret : Type 0 where
  insecure_jwt_secret insecure_webhook_secret : InsecureSecret

-- `_validate_production_secrets`
unfoldable pub validate_production_secrets : Settings → Result InsecureSecret (Unit {0})
validate_production_secrets cfg =
    if not (cfg.environment == "production")
    then ok tt
    else if cfg.jwt_secret == "dev-secret-change-in-prod"
    then err insecure_jwt_secret
    else if cfg.scout_webhook_secret == "dev-webhook-secret"
    then err insecure_webhook_secret
    else ok tt

-- what `lifespan` does, in its order: before it yields, while the application serves, and afterwards
pub data Phase : Type 0 where
  logging_set_up sweep_task_started serving sweep_task_cancelled hub_client_closed : Phase

-- `lifespan`: a secret that is refused ends it before the sweep is started
unfoldable pub lifespan : Settings → Result InsecureSecret (List Phase)
unfolding validate_production_secrets
lifespan cfg = elim (validate_production_secrets cfg) [
  | err e ↦ err e
  | ok _ ↦ ok (
      logging_set_up ∷ sweep_task_started ∷ serving ∷ sweep_task_cancelled ∷ hub_client_closed ∷ [])
]

-- the exceptions that the application has handlers for
pub data AppError : Type 0 where
  fraud_blocked_error : FraudCheckResult → AppError
  claude_api_error hub_save_error : AppError

-- `fraud_blocked_handler`, `claude_api_error_handler` and `hub_save_error_handler`: the status code and the
-- fields of the body
pub record JsonResponse : Type 0 where
  pub status_code : ℕ
  pub error : String
  pub severity : Option RiskSeverity
  pub warnings : List Warning

unfoldable pub on_error : AppError → JsonResponse
on_error (fraud_blocked_error result) = record {
  status_code = 422;
  error = "FraudBlocked";
  severity = some result.severity;
  warnings = result.warnings;
}
on_error claude_api_error = record {
  status_code = 503;
  error = "ClaudeApiError";
  severity = none;
  warnings = [];
}
on_error hub_save_error = record {
  status_code = 502;
  error = "HubSaveError";
  severity = none;
  warnings = [];
}

-- what the body of `health_check` says beside "healthy"
pub record Health : Type 0 where
  pub environment : String
  pub purchase_trigger_enabled : Bool
  pub redis : Bool

module _ (h : HubStore) where
  open h use {State}

  -- `health_check`
  unfoldable pub health_check : Settings → State → Health × State
  health_check cfg s =
      let (redis_ok, s') = h.ping s in
      (
        record {
          environment = cfg.environment;
          purchase_trigger_enabled = cfg.purchase_trigger_enabled;
          redis = redis_ok;
        },
        s',
      )

abbrev choose : Redis → Bool → HubStore
choose r true = redis_store r
choose r false = memory_store

-- `get_hub_store`
abbrev get_hub_store : Redis → Settings → HubStore
get_hub_store r cfg = choose r cfg.hub_redis_enabled

-- Whichever store the settings choose, it keeps the contract.
get_hub_store-laws : (r : Redis) (cfg : Settings) → RedisLaws r → HubStoreLaws (get_hub_store r cfg)
get_hub_store-laws r cfg l = chosen cfg.hub_redis_enabled
  where
    chosen : (enabled : Bool) → HubStoreLaws (choose r enabled)
    chosen true = redis_laws r l
    chosen false = memory_laws

-- The program starts exactly if it is not in production, or neither secret still has the value that is
-- public in the source.
starts_iff :
    (cfg : Settings)
    → (validate_production_secrets cfg ≡ ok tt) ↔ (
        (cfg.environment ≢ "production")
        ⊎ ((cfg.jwt_secret ≢ "dev-secret-change-in-prod")
            × (cfg.scout_webhook_secret ≢ "dev-webhook-secret")))
unfolding validate_production_secrets
starts_iff cfg =
    let p = eq_iff cfg.environment "production" in
    let j = eq_iff cfg.jwt_secret "dev-secret-change-in-prod" in
    let w = eq_iff cfg.scout_webhook_secret "dev-webhook-secret" in ground (arith, p, j, w)
