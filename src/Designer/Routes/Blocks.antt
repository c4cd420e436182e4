-- ===== src/Designer/Routes/Blocks.antt =====
-- `generate_offer_brief`: which offers a marketer gets to see, and what a blocked one leaves behind.
use mathlib.Core.Path.{subst}
use tristar.Base.{
  ◌≤◌, String, true, false, ◌≡◌, ◌≢◌, inl, inr, refl, arith, sym, ◌∙◌, Bool-cases, is_some, eq_refl,
}
use tristar.Outcome.{Result, ok, err}
use tristar.Core.Config.{Settings}
use tristar.Core.Security.{AuthUser}
use tristar.Models.Offer.{OfferBrief, critical, marketer_initiated, GenerateOfferRequest}
use tristar.Hub.Store.{
  HubStore, HubStoreLaws, StoreError, redis_unavailable, already_exists, naive_and_aware, View,
  SaveSpec,
}
use tristar.Designer.Fraud.{Counts, active_offers, validate}
use tristar.Designer.Fraud.Verdicts.{validate_lem}
use tristar.Designer.Claude.Parse.{ClaudeError}
use tristar.Designer.Claude.Service.{Backend, Inputs, generate_from_objective}
use tristar.Designer.Claude.Service.FromClaude.{CacheOk, FromClaude}
use tristar.Designer.Claude.Service.Offers.{generate_from_objective-Made}
use tristar.Designer.Routes.{
  DesignerState, Answer, with_flags, drafted, auto_save, checked, generate_offer_brief,
}
use tristar.Designer.Routes.Drafts.{with_flags-IsStorable, logged, checked_blocked, checked_passed}

module _ (h : HubStore) (l : HubStoreLaws h) where
  open h use {State}

  -- What a marketer sees has passed the checks and is in the store under the new id.
  abbrev pub Seen : String → Answer State OfferBrief → OfferBrief → Type 0
  Seen uuid a p =
      FromClaude marketer_initiated p
      × (p.offer_id ≡ uuid)
      × (p.risk_flags.severity ≢ critical)
      × (is_some (l.view a.1.hub.store uuid) ≡ true)

  drafted_seen :
      (o : OfferBrief) (v : View) (r : Result StoreError (Unit {0})) (s : DesignerState State)
      {p : OfferBrief}
      → SaveSpec v (l.view s.hub.store) o r
      → (drafted h o r s).0 ≡ ok p
      → (o ≡ p) × (is_some (l.view (drafted h o r s).1.hub.store o.offer_id) ≡ true)
  drafted_seen o v (ok _) s sp e = (ground arith, rw (sp.1 o.offer_id, eq_refl) refl)
  drafted_seen o v (err already_exists) s sp e = (ground arith, rw (sp.1 o.offer_id) sp.0)
  drafted_seen o v (err redis_unavailable) s sp e = absurd (ground arith)
  drafted_seen o v (err naive_and_aware) s sp e = absurd sp

  saved_seen :
      (uuid : String) (o : OfferBrief) (s : DesignerState State) {p : OfferBrief}
      → FromClaude marketer_initiated o
      → o.offer_id ≡ uuid
      → o.risk_flags.severity ≢ critical
      → l.IsGood s.hub.store
      → (auto_save h o (ok tt) s).0 ≡ ok p
      → Seen uuid (auto_save h o (ok tt) s) p
  saved_seen uuid o s f named harmless g e =
      let (r, store) = h.save o s.hub.store in
      let (same, there) =
        drafted_seen o (l.view s.hub.store) r (record s { hub = record s.hub { store = store } })
          (l.save_lem o s.hub.store f.0 g) e in
      subst (Seen uuid (auto_save h o (ok tt) s)) same (
        f,
        named,
        harmless,
        subst (λ id. is_some (l.view (auto_save h o (ok tt) s).1.hub.store id) ≡ true) named there,
      )

  checked_seen :
      (uuid : String) (user : AuthUser) (r : Result ClaudeError OfferBrief)
      (s : DesignerState State) {p : OfferBrief}
      → ((o : OfferBrief) → r ≡ ok o → FromClaude marketer_initiated o × (o.offer_id ≡ uuid))
      → l.IsGood s.hub.store
      → (checked h user r s).0 ≡ ok p
      → Seen uuid (checked h user r s) p
  checked_seen uuid user (err e) s f g = unfold checked in λ e. absurd (ground arith)
  checked_seen uuid user (ok o) s {p} f g =
      let v = validate s.counts o user.user_id in
      elim (Bool-cases v.blocked) [
        | inl blocked ↦ rw (checked_blocked h l user o s blocked) (λ e. absurd (ground arith))
        | inr passed ↦ rw (checked_passed h l user o s passed) (
            saved_seen uuid (with_flags v o) (logged h l user o s)
              (with_flags-IsStorable v o (f o refl).0.0, (f o refl).0.1) (f o refl).1
              (passes s.counts o user.user_id passed) g)
      ]
    where
      passes :
          (counts : Counts) (o : OfferBrief) (m : String)
          → (validate counts o m).blocked ≡ false
          → (validate counts o m).flags.severity ≢ critical
      passes counts o m passed =
          let (_, critical_iff, _, same, _, _) = validate_lem counts o m in
          λ c. let b = critical_iff.1 (sym same ∙ c) in ground arith

  -- An offer that `generate_offer_brief` returns has passed validation, is marketer-initiated, has the
  -- new id of the call and no critical severity, and the store has an offer under that id afterwards,
  -- if the cache and the store were good before.
  pub generated_offer :
      (b : Backend) (cfg : Settings) (user : AuthUser) (request : GenerateOfferRequest) (i : Inputs)
      (s : DesignerState State) {p : OfferBrief}
      → CacheOk s.cache
      → l.IsGood s.hub.store
      → (generate_offer_brief h b cfg user request i s).0 ≡ ok p
      → Seen i.uuid (generate_offer_brief h b cfg user request i s) p
  unfolding generate_offer_brief
  generated_offer b cfg user request i s c g e =
      let (r, cache) =
        generate_from_objective b cfg request.objective request.segment_hints i s.cache in
      let spec =
        generate_from_objective-Made b cfg request.objective request.segment_hints i s.cache c in
      checked_seen i.uuid user r (record s { cache = cache }) spec.1 g e

  never_ok :
      (user : AuthUser) (r : Result ClaudeError OfferBrief) (s : DesignerState State)
      → 3 ≤ active_offers s.counts user.user_id
      → ((p : OfferBrief) → (checked h user r s).0 ≢ ok p) × ((checked h user r s).1.hub ≡ s.hub)
  never_ok user (err e) s three = unfold checked in (λ p e. absurd (ground arith), refl)
  never_ok user (ok o) s three =
      rw (checked_blocked h l user o s ((validate_lem s.counts o user.user_id).0.1 (inr three)))
        (λ p e. absurd (ground arith), refl)

  -- A marketer with three offers on record gets no offer any more, whatever is asked and whatever
  -- Claude answers, and the Hub is left as it was.
  pub generate_locked_out :
      (b : Backend) (cfg : Settings) (user : AuthUser) (request : GenerateOfferRequest) (i : Inputs)
      (s : DesignerState State)
      → 3 ≤ active_offers s.counts user.user_id
      → ((p : OfferBrief) → (generate_offer_brief h b cfg user request i s).0 ≢ ok p)
        × ((generate_offer_brief h b cfg user request i s).1.hub ≡ s.hub)
  unfolding generate_offer_brief
  generate_locked_out b cfg user request i s three =
      let (r, cache) =
        generate_from_objective b cfg request.objective request.segment_hints i s.cache in
      never_ok user r (record s { cache = cache }) three
