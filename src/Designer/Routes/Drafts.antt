-- ===== src/Designer/Routes/Drafts.antt =====
-- `generate_offer_brief`: what is saved for a marketer, and when nothing is.
use mathlib.Core.Path.{subst}
use tristar.Base.{true, false, [], ◌∷◌, ◌++◌, ◌≡◌, ◌≢◌, inl, inr, refl, arith, sym, Bool-cases}
use tristar.Outcome.{Result, ok, err}
use tristar.AuditLog.{log_generation, log_fraud_block}
use tristar.Core.Config.{Settings}
use tristar.Core.Http.{http, fraud_blocked}
use tristar.Core.Security.{AuthUser}
use tristar.Models.Offer.{
  OfferBrief, FraudCheckResult, marketer_initiated, GenerateOfferRequest, active,
}
use tristar.Models.Validation.{offer_ok}
use tristar.Hub.Store.{
  HubStore, HubStoreLaws, StoreError, redis_unavailable, already_exists, naive_and_aware,
  IsStorable,
}
use tristar.Hub.Change.{saved-Changes}
use tristar.Hub.Routes.{starts_wrong}
use tristar.Hub.Routes.Lifecycle.{Keeps, same-Keeps}
use tristar.Designer.Fraud.{validate}
use tristar.Designer.Claude.Parse.{ClaudeError}
use tristar.Designer.Claude.Service.{Backend, Inputs, generate_from_objective}
use tristar.Designer.Claude.Service.FromClaude.{CacheOk}
use tristar.Designer.Claude.Service.Offers.{generate_from_objective-Made}
use tristar.Designer.Routes.{
  DesignerState, with_flags, raise_if_fraud_blocked, drafted, auto_save, checked,
  generate_offer_brief,
}

pub with_flags-IsStorable :
    (r : FraudCheckResult) (o : OfferBrief) → IsStorable o → IsStorable (with_flags r o)
unfolding offer_ok
with_flags-IsStorable r o st = record { valid = st.valid; member = st.member }

module _ (h : HubStore) (l : HubStoreLaws h) where
  open h use {State}

  -- the state when the store is asked to save an offer
  abbrev pub logged : AuthUser → OfferBrief → DesignerState State → DesignerState State
  logged user o s =
      let verdict = validate s.counts o user.user_id in
      record s {
        log = s.log ++ log_generation (with_flags verdict o) user.user_id marketer_initiated ∷ [];
      }

  pub checked_blocked :
      (user : AuthUser) (o : OfferBrief) (s : DesignerState State)
      → (validate s.counts o user.user_id).blocked ≡ true
      → let v = validate s.counts o user.user_id in
        checked h user (ok o) s ≡ (
          err (http 422 (fraud_blocked v.severity v.warnings o.offer_id)),
          record (logged user o s) {
            log =
                (logged user o s).log
                ++ log_fraud_block o.offer_id user.user_id v.severity v.warnings ∷ [];
          },
        )
  unfolding checked raise_if_fraud_blocked
  checked_blocked user o s blocked = rw blocked refl

  pub checked_passed :
      (user : AuthUser) (o : OfferBrief) (s : DesignerState State)
      → (validate s.counts o user.user_id).blocked ≡ false
      → let v = validate s.counts o user.user_id in
        checked h user (ok o) s ≡ auto_save h (with_flags v o) (ok tt) (logged user o s)
  unfolding checked raise_if_fraud_blocked
  checked_passed user o s passed = rw passed refl

  pub drafted-hub :
      (o : OfferBrief) (r : Result StoreError (Unit {0})) (s : DesignerState State)
      → (drafted h o r s).1.hub ≡ s.hub
  unfolding checked
  drafted-hub o (ok _) s = refl
  drafted-hub o (err already_exists) s = refl
  drafted-hub o (err redis_unavailable) s = refl
  drafted-hub o (err naive_and_aware) s = refl

  auto_save-Keeps :
      (o : OfferBrief) (s : DesignerState State)
      → IsStorable o
      → starts_wrong o ≡ false
      → l.IsGood s.hub.store
      → Keeps h l s.hub (auto_save h o (ok tt) s).1.hub
  auto_save-Keeps o s st right g =
      let (r, store) = h.save o s.hub.store in
      let same = drafted-hub o r (record s { hub = record s.hub { store = store } }) in
      subst (Keeps h l s.hub) (sym same) (record {
        good = l.save-IsGood o s.hub.store st g;
        changes =
            saved-Changes o (l.view s.hub.store) (l.view store) r right
              (l.save_lem o s.hub.store st g);
      })

  pub checked-Keeps :
      (user : AuthUser) (r : Result ClaudeError OfferBrief) (s : DesignerState State)
      → ((o : OfferBrief) → r ≡ ok o → IsStorable o × (starts_wrong o ≡ false))
      → l.IsGood s.hub.store
      → Keeps h l s.hub (checked h user r s).1.hub
  checked-Keeps user (err e) s f g = unfold checked in same-Keeps h l s.hub s.hub refl g
  checked-Keeps user (ok o) s f g =
      let v = validate s.counts o user.user_id in
      elim (Bool-cases v.blocked) [
        | inl blocked ↦ rw (checked_blocked user o s blocked) (same-Keeps h l s.hub s.hub refl g)
        | inr passed ↦ rw (checked_passed user o s passed) (
            auto_save-Keeps (with_flags v o) (logged user o s)
              (with_flags-IsStorable v o (f o refl).0) (unfold starts_wrong in (f o refl).1) g)
      ]

  -- Whatever Claude sends, a call of `generate_offer_brief` leaves a good store of the Hub good and
  -- changes its entries along the life of an offer only, if the cache was good and the status of
  -- the offer that Claude wrote is not active.
  pub generate_offer_brief-Keeps :
      (b : Backend) (cfg : Settings) (user : AuthUser) (request : GenerateOfferRequest) (i : Inputs)
      (s : DesignerState State)
      → CacheOk s.cache
      → l.IsGood s.hub.store
      → ((o : OfferBrief)
          → (generate_from_objective b cfg request.objective request.segment_hints i s.cache).0
            ≡ ok o
          → o.status ≢ active)
      → Keeps h l s.hub (generate_offer_brief h b cfg user request i s).1.hub
  unfolding generate_offer_brief
  generate_offer_brief-Keeps b cfg user request i s c g inactive =
      let (r, cache) =
        generate_from_objective b cfg request.objective request.segment_hints i s.cache in
      let spec =
        generate_from_objective-Made b cfg request.objective request.segment_hints i s.cache c in
      checked-Keeps user r (record s { cache = cache })
        (λ o e. ((spec.1 o e).0.0, unfold starts_wrong in let n = inactive o e in ground arith)) g

  drafted-cache :
      (o : OfferBrief) (r : Result StoreError (Unit {0})) (s : DesignerState State)
      → (drafted h o r s).1.cache ≡ s.cache
  unfolding checked
  drafted-cache o (ok _) s = refl
  drafted-cache o (err already_exists) s = refl
  drafted-cache o (err redis_unavailable) s = refl
  drafted-cache o (err naive_and_aware) s = refl

  checked-cache :
      (user : AuthUser) (r : Result ClaudeError OfferBrief) (s : DesignerState State)
      → (checked h user r s).1.cache ≡ s.cache
  checked-cache user (err e) s = unfold checked in refl
  checked-cache user (ok o) s =
      let v = validate s.counts o user.user_id in
      elim (Bool-cases v.blocked) [
        | inl blocked ↦ rw (checked_blocked user o s blocked) refl
        | inr passed ↦
            rw (checked_passed user o s passed)
              (drafted-cache (with_flags v o) (h.save (with_flags v o) s.hub.store).0 _)
      ]

  pub generate_offer_brief-cache :
      (b : Backend) (cfg : Settings) (user : AuthUser) (request : GenerateOfferRequest) (i : Inputs)
      (s : DesignerState State)
      → CacheOk s.cache
      → CacheOk (generate_offer_brief h b cfg user request i s).1.cache
  unfolding generate_offer_brief
  generate_offer_brief-cache b cfg user request i s c =
      let (r, cache) =
        generate_from_objective b cfg request.objective request.segment_hints i s.cache in
      let spec =
        generate_from_objective-Made b cfg request.objective request.segment_hints i s.cache c in
      subst CacheOk (sym (checked-cache user r (record s { cache = cache }))) spec.0
