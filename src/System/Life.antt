-- ===== src/System/Life.antt =====
-- Sequences of requests to the whole program and the life of an offer.
use tristar.Base.{
  ◌⊎◌, ◌<◌, ℕ, String, Option, some, List, [], ◌∷◌, ◌≡◌, ◌≢◌, inl, inr, refl, arith, sym, ◌∙◌,
}
use mathlib.Core.Path.{subst}
use tristar.Outcome.{ok}
use tristar.Clock.{DateTime}
use tristar.Models.Offer.{OfferBrief, OfferStatus, draft, approved, active, expired, with_status}
use tristar.Hub.Store.{HubStore, HubStoreLaws}
use tristar.Hub.Change.{Allowed, Change, unchanged, created, moved, replaced, Changes}
use tristar.Hub.Change
use tristar.Core.Security.{Decoded}
use tristar.Hub.Routes.Lifecycle.{Keeps}
use tristar.Hub.Api.Keeps.{
  post_offers-Keeps, get_offers_id-Keeps, get_offers-Keeps, put_offers_id_status-Keeps,
}
use tristar.Designer.Api.Keeps.{
  IsSound, Sound, post_generate-Sound, post_generate_purchase-Sound, post_approve_id-Sound,
}
use tristar.Hub.Sweep.{sweep}
use tristar.Hub.Sweep.Expiry.{Expires, sweep-Expires}
use tristar.Designer.Claude.Service.{generate_from_objective}
use tristar.Designer.Claude.Service.FromClaude.{CacheOk}
use tristar.Designer.Routes.{DesignerState}
use tristar.System.{
  Request, save, read, list, set_status, generate, generate_purchase, approve, expire_due, step,
  run,
}

-- The order in which the statuses come.
abbrev pub rank : OfferStatus → ℕ
rank draft = 0
rank approved = 1
rank active = 2
rank expired = 3

-- The same offer, or one whose status has gone on.
abbrev pub Since : OfferBrief → OfferBrief → Type 0
Since o p = (p ≡ o) ⊎ (rank o.status < rank p.status)

-- An offer that is there stays there, as it is or with a status further on.
abbrev pub Progress : Option OfferBrief → Option OfferBrief → Type 0
Progress a b = (o : OfferBrief) → a ≡ some o → (p : OfferBrief) × (b ≡ some p) × Since o p

pub Progress-trans : (a b c : Option OfferBrief) → Progress a b → Progress b c → Progress a c
Progress-trans a b c ab bc o e =
    let (p, there, on) = ab o e in
    let (q, there', on') = bc p there in (q, there', both o p q on on')
  where
    both : (o p q : OfferBrief) → Since o p → Since p q → Since o q
    both o p q (inl e) (inl e') = inl (e' ∙ e)
    both o p q (inl e) (inr lt) =
        inr (subst (λ (x : OfferBrief). rank x.status < rank q.status) e lt)
    both o p q (inr lt) (inl e) =
        inr (subst (λ (x : OfferBrief). rank o.status < rank x.status) (sym e) lt)
    both o p q (inr lt) (inr lt') = inr (omega (arith, lt, lt'))

climbs : {old new : OfferStatus} → Allowed old new → rank old < rank new
climbs Change.approve = ground arith
climbs Change.activate = ground arith
climbs Change.expire = ground arith

-- One step forward, of the offer that was there.
forward :
    (a b : Option OfferBrief) (q p : OfferBrief)
    → a ≡ some q
    → b ≡ some p
    → rank q.status < rank p.status
    → Progress a b
forward a b q p was now lt o e =
    let same : q ≡ o = ground arith in
    (p, now, inr (subst (λ (x : OfferBrief). rank x.status < rank p.status) same lt))

pub Change-Progress : (a b : Option OfferBrief) → Change a b → Progress a b
Change-Progress a b (unchanged same) = λ o e. (o, same ∙ e, inl refl)
Change-Progress a b (created p fresh there right) = λ o e. absurd (ground arith)
Change-Progress a b (moved q new was now allowed) =
    forward a b q (with_status new q) was now (climbs allowed)
Change-Progress a b (replaced q p was now old new) =
    forward a b q p was now (rw (old, new) (omega arith))

Expires-Progress : (now : DateTime) (a b : Option OfferBrief) → Expires now a b → Progress a b
Expires-Progress now a b (inl same) = λ o e. (o, same ∙ e, inl refl)
Expires-Progress now a b (inr (q, was, act, _, is)) =
    forward a b q (with_status expired q) was is (rw act (omega arith))

module _ (h : HubStore) (l : HubStoreLaws h) (decode : String → Decoded) where
  open h use {State}

  -- An offer that Claude writes for a marketer is not active.
  abbrev pub IsFair : Request → DesignerState State → Type 0
  IsFair (generate b cfg token request i) s =
      (o : OfferBrief)
      → (generate_from_objective b cfg request.objective request.segment_hints i s.cache).0 ≡ ok o
      → o.status ≢ active
  IsFair _ s = Unit {0}

  abbrev pub AllFair : List Request → DesignerState State → Type 0
  AllFair [] s = Unit {0}
  AllFair (r ∷ rs) s = IsFair r s × AllFair rs (step h decode r s)

  abbrev pub Better : DesignerState State → DesignerState State → Type 0
  Better s s' =
      IsSound h l s' × ((id : String) → Progress (l.view s.hub.store id) (l.view s'.hub.store id))

  kept : (s s' : DesignerState State) → Keeps h l s.hub s'.hub → CacheOk s'.cache → Better s s'
  kept s s' k c = (
    record { good = k.good; cache_ok = c },
    λ id. Change-Progress (l.view s.hub.store id) (l.view s'.hub.store id) (k.changes id),
  )

  sound : (s s' : DesignerState State) → Sound h l s s' → Better s s'
  sound s s' k = kept s s' k.hub k.cache

  pub step-Better :
      (r : Request) (s : DesignerState State)
      → IsFair r s
      → IsSound h l s
      → Better s (step h decode r s)
  unfolding step
  step-Better (save token o) s f k =
      kept s _ (post_offers-Keeps h l decode token s.hub k.good o) k.cache_ok
  step-Better (read token id) s f k =
      kept s _ (get_offers_id-Keeps h l decode token s.hub k.good id) k.cache_ok
  step-Better (list token status member trigger since) s f k =
      kept s _ (get_offers-Keeps h l decode token s.hub k.good status member trigger since)
        k.cache_ok
  step-Better (set_status token id new) s f k =
      kept s _ (put_offers_id_status-Keeps h l decode token s.hub k.good id new) k.cache_ok
  step-Better (generate b cfg token request i) s f k =
      sound s _ (post_generate-Sound h l decode s k b cfg token request i f)
  step-Better (generate_purchase b cfg token hub_token ctx i) s f k =
      sound s _ (post_generate_purchase-Sound h l decode s k b cfg token hub_token ctx i)
  step-Better (approve token id o) s f k =
      sound s _ (post_approve_id-Sound h l decode s k token id o)
  step-Better (expire_due now) s f k =
      let (g, each) = sweep-Expires h l now s.hub.store k.good in
      (
        record { good = g; cache_ok = k.cache_ok },
        λ id.
            Expires-Progress now (l.view s.hub.store id) (l.view (sweep h now s.hub.store).1 id)
              (each id),
      )

  Better-trans : (a b c : DesignerState State) → Better a b → Better b c → Better a c
  Better-trans a b c ab bc = (
    bc.0,
    λ id.
        Progress-trans (l.view a.hub.store id) (l.view b.hub.store id) (l.view c.hub.store id)
          (ab.1 id) (bc.1 id),
  )

  pub run-Better :
      (rs : List Request) (s : DesignerState State)
      → AllFair rs s
      → IsSound h l s
      → Better s (run h decode rs s)
  unfolding run
  run-Better [] s f k = (k, λ id o e. (o, e, inl refl))
  run-Better (r ∷ rs) s f k =
      let one = step-Better r s f.0 k in
      Better-trans s (step h decode r s) (run h decode rs (step h decode r s)) one
        (run-Better rs (step h decode r s) f.1 one.0)

  -- Over any sequence of requests and sweeps, whoever calls with whatever body and whatever each request
  -- answers, an offer that was in the store is still there, and is the same offer or has a status further
  -- on; if Claude writes no active offer for a marketer, and the store and the cache were good.
  pub run_progress :
      (rs : List Request) (s : DesignerState State) (id : String) (o : OfferBrief)
      → AllFair rs s
      → IsSound h l s
      → l.view s.hub.store id ≡ some o
      → (p : OfferBrief) × (l.view (run h decode rs s).hub.store id ≡ some p) × Since o p
  run_progress rs s id o f k e = (run-Better rs s f k).1 id o e
