-- ===== src/Designer/Routes.antt =====
-- src/backend/api/designer.py: the handlers of the Designer. The Hub's store is the one that the Hub
-- serves; the network between the Designer and the Hub's HTTP interface is the parameter `post`.
pub mod Approvals
pub mod Approved
pub mod Blocks
pub mod Drafts
pub mod Purchases
pub mod PurchaseKeeps
pub mod PurchaseFails
use tristar.Base.{
  ℕ, String, Bool, true, false, not, Option, none, some, List, [], ◌∷◌, ◌++◌, if◌then◌else◌, ◌==◌,
  leb,
}
use tristar.Outcome.{Result, ok, err}
use tristar.AuditLog.{Entry, log_generation, log_approval, log_fraud_block}
use tristar.Core.Config.{Settings}
use tristar.Core.Http.{
  HttpError, http, internal_error, fraud_blocked, generation_failed, unparseable, hub_save_failed,
  id_mismatch, critical_flags, not_found, store_unavailable,
}
use tristar.Core.Security.{AuthUser}
use tristar.Models.Offer.{
  OfferBrief, OfferStatus, approved, FraudCheckResult, RiskSeverity, is_critical, TriggerType,
  marketer_initiated, purchase_triggered, GenerateOfferRequest, ApproveOfferResponse, with_status,
}
use tristar.Models.Purchase.{PurchaseContextRequest}
use tristar.Hub.Store.{HubStore, StoreError, redis_unavailable, already_exists, naive_and_aware}
use tristar.Hub.Routes.{HubState, validate_transition}
use tristar.Designer.Fraud.{Counts, validate, record_active_offer}
use tristar.Designer.Claude.Cache.{Cache}
use tristar.Designer.Claude.Parse.{ClaudeError, api_error, parse_error, type_error}
use tristar.Designer.Claude.Service.{
  Backend, Inputs, generate_from_objective, generate_from_purchase_context,
}
use tristar.Designer.HubClient.{Reply, ClientError, hub_save_error, save_offer}
use tristar.Designer.Inventory.{
  ℤ, pos, negsuc, Inventory, InventorySuggestion, ValidationError, get_suggestions,
}

-- the cache of the Claude service, the counts of the fraud service, the log, and the Hub
pub record DesignerState (H : Type 0) : Type 0 where
  pub cache : Cache
  pub counts : Counts
  pub log : List Entry
  pub hub : HubState H

abbrev pub Answer : Type 0 → Type 0 → Type 0
Answer H A = Result HttpError A × DesignerState H

-- `offer.model_copy(update={"risk_flags": fraud_result.flags})`
abbrev pub with_flags : FraudCheckResult → OfferBrief → OfferBrief
with_flags r o = record o { risk_flags = r.flags }

-- how both handlers answer an exception of the Claude service
unfoldable pub claude_error : ClaudeError → HttpError
claude_error api_error = http 503 generation_failed
claude_error parse_error = http 503 unparseable
claude_error type_error = internal_error

module _ {H : Type 0} where
  abbrev write : Entry → DesignerState H → DesignerState H
  write e s = record s { log = s.log ++ e ∷ [] }

  -- `_raise_if_fraud_blocked`
  unfoldable pub raise_if_fraud_blocked :
      FraudCheckResult
      → String
      → String
      → DesignerState H
      → Result HttpError (Unit {0}) × DesignerState H
  unfolding log_fraud_block
  raise_if_fraud_blocked r offer_id member_id s =
      if r.blocked
      then (
        err (http 422 (fraud_blocked r.severity r.warnings offer_id)),
        write (log_fraud_block offer_id member_id r.severity r.warnings) s,
      )
      else (ok tt, s)

module _ (h : HubStore) where
  open h use {State}

  abbrev pub drafted :
      OfferBrief → Result StoreError (Unit {0}) → DesignerState State → Answer State OfferBrief
  drafted o (ok _) s = (ok o, s)
  drafted o (err already_exists) s = (ok o, s)
  drafted o (err redis_unavailable) s = (err (http 503 store_unavailable), s)
  drafted o (err naive_and_aware) s = (err internal_error, s)

  abbrev pub auto_save :
      OfferBrief → Result HttpError (Unit {0}) → DesignerState State → Answer State OfferBrief
  auto_save o (err e) s = (err e, s)
  auto_save o (ok _) s =
      let (r, store) = h.save o s.hub.store in
      drafted o r (record s { hub = record s.hub { store = store } })

  -- the part of `generate_offer_brief` after Claude's answer
  unfoldable pub checked :
      AuthUser → Result ClaudeError OfferBrief → DesignerState State → Answer State OfferBrief
  unfolding claude_error raise_if_fraud_blocked validate log_generation
  checked user (err e) s = (err (claude_error e), s)
  checked user (ok o) s =
      let verdict = validate s.counts o user.user_id in
      let flagged = with_flags verdict o in
      let s₁ = write (log_generation flagged user.user_id marketer_initiated) s in
      let (r, s₂) = raise_if_fraud_blocked verdict flagged.offer_id user.user_id s₁ in
      auto_save flagged r s₂

  -- `generate_offer_brief`
  unfoldable pub generate_offer_brief :
      Backend
      → Settings
      → AuthUser
      → GenerateOfferRequest
      → Inputs
      → DesignerState State
      → Answer State OfferBrief
  unfolding checked generate_from_objective
  generate_offer_brief b cfg user request i s =
      let (r, cache) =
        generate_from_objective b cfg request.objective request.segment_hints i s.cache in
      checked user r (record s { cache = cache })

abbrev client_error : ClientError → HttpError
client_error hub_save_error = http 502 hub_save_failed
client_error _ = internal_error

module _ {H : Type 0} (post : OfferBrief → HubState H → Reply OfferBrief × HubState H) where
  abbrev delivered : String → Result ClientError OfferBrief → DesignerState H → Answer H OfferBrief
  delivered member_id (err e) s = (err (client_error e), s)
  delivered member_id (ok saved_offer) s =
      (ok saved_offer, record s { counts = record_active_offer member_id s.counts })

  abbrev send :
      String → OfferBrief → Result HttpError (Unit {0}) → DesignerState H → Answer H OfferBrief
  send member_id o (err e) s = (err e, s)
  send member_id o (ok _) s =
      let (r, hub) = save_offer post o s.hub in delivered member_id r (record s { hub = hub })

  unfoldable pub checked_purchase :
      PurchaseContextRequest → Result ClaudeError OfferBrief → DesignerState H → Answer H OfferBrief
  unfolding claude_error raise_if_fraud_blocked validate log_generation save_offer
      record_active_offer
  checked_purchase ctx (err e) s = (err (claude_error e), s)
  checked_purchase ctx (ok o) s =
      let verdict = validate s.counts o ctx.member_id in
      let flagged = with_flags verdict o in
      let s₁ = write (log_generation flagged ctx.member_id purchase_triggered) s in
      let (r, s₂) = raise_if_fraud_blocked verdict flagged.offer_id ctx.member_id s₁ in
      send ctx.member_id flagged r s₂

  -- `generate_purchase_triggered_offer`
  unfoldable pub generate_purchase_triggered_offer :
      Backend → Settings → PurchaseContextRequest → Inputs → DesignerState H → Answer H OfferBrief
  unfolding checked_purchase generate_from_purchase_context
  generate_purchase_triggered_offer b cfg ctx i s =
      checked_purchase ctx (generate_from_purchase_context b cfg ctx i) s

module _ (h : HubStore) where
  open h use {State}

  abbrev pub recorded :
      AuthUser
      → String
      → OfferBrief
      → Result StoreError (Unit {0})
      → DesignerState State
      → Answer State ApproveOfferResponse
  recorded user offer_id o (err redis_unavailable) s = (err (http 503 store_unavailable), s)
  recorded user offer_id o (err _) s = (err internal_error, s)
  recorded user offer_id o (ok _) s = (
    ok (record { offer_id = offer_id; status = approved; hub_saved = true }),
    write (log_approval o user.user_id)
        (record s { counts = record_active_offer user.user_id s.counts }),
  )

  -- the part of `approve_offer` after the transition was looked at
  unfoldable pub approve :
      AuthUser
      → String
      → OfferBrief
      → Result HttpError (Unit {0})
      → DesignerState State
      → Answer State ApproveOfferResponse
  unfolding record_active_offer log_approval
  approve user offer_id o (err e) s = (err e, s)
  approve user offer_id o (ok _) s =
      let (r, store) = h.update (with_status approved o) s.hub.store in
      recorded user offer_id (with_status approved o) r
        (record s { hub = record s.hub { store = store } })

  abbrev pub current :
      AuthUser
      → String
      → OfferBrief
      → Result StoreError (Option OfferBrief)
      → DesignerState State
      → Answer State ApproveOfferResponse
  current user offer_id o (err redis_unavailable) s = (err (http 503 store_unavailable), s)
  current user offer_id o (err _) s = (err internal_error, s)
  current user offer_id o (ok none) s = (err (http 404 (not_found offer_id)), s)
  current user offer_id o (ok (some stored)) s =
      approve user offer_id o (validate_transition stored.status approved) s

  -- `approve_offer`
  unfoldable pub approve_offer :
      AuthUser → String → OfferBrief → DesignerState State → Answer State ApproveOfferResponse
  unfolding approve validate_transition
  approve_offer user offer_id o s =
      let (r, store) = h.get offer_id s.hub.store in
      if not (o.offer_id == offer_id)
      then (err (http 400 (id_mismatch offer_id o.offer_id)), s)
      else if is_critical o.risk_flags.severity
      then (err (http 400 critical_flags), s)
      else current user offer_id o r (record s { hub = record s.hub { store = store } })

-- `min(limit, 10)`
abbrev pub at_most_10 : ℤ → ℤ
at_most_10 (pos n) = if leb n 10 then pos n else pos 10
at_most_10 (negsuc n) = negsuc n

-- `get_inventory_suggestions`
unfoldable pub get_inventory_suggestions :
    ℤ → ℕ → Inventory → Result ValidationError (List InventorySuggestion)
unfolding get_suggestions
get_inventory_suggestions limit now inv = get_suggestions (at_most_10 limit) now inv
