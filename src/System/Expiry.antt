-- ===== src/System/Expiry.antt =====
-- The sweep among the requests, over the store in memory: the offers whose time has passed.
use tristar.Base.{String, List, some, true, false, ◌≡◌, ◌⊎◌, ◌<◌, inl, inr, refl, ◌∙◌, ap, arith}
use mathlib.Core.Path.{subst}
use tristar.Clock.{DateTime}
use tristar.Core.Security.{Decoded}
use tristar.Models.Offer.{OfferBrief, OfferStatus, draft, approved, active, expired}
use tristar.Hub.Store.Memory.{Store, memory_store}
use tristar.Hub.Store.Memory.Contract.{IsGood, view, memory_laws}
use tristar.Hub.Sweep.{is_due, sweep}
use tristar.Hub.Sweep.Complete.{sweep_complete}
use tristar.Designer.Routes.{DesignerState}
use tristar.Designer.Api.Keeps.{IsSound}
use tristar.System.{Request, expire_due, step, run}
use tristar.System.Life.{Since, AllFair, rank, run-Better, step-Better}

beyond_active : (s : OfferStatus) → rank active < rank s → s ≡ expired
beyond_active draft h = absurd (omega arith)
beyond_active approved h = absurd (omega arith)
beyond_active active h = absurd (omega arith)
beyond_active expired h = refl

beyond_expired : (s : OfferStatus) → rank expired < rank s → ⊥
beyond_expired draft h = omega arith
beyond_expired approved h = omega arith
beyond_expired active h = omega arith
beyond_expired expired h = omega arith

-- An offer that was active, and is the same or further on, is active as it was or expired.
active_or_expired :
    (o p : OfferBrief) → o.status ≡ active → Since o p → (p ≡ o) ⊎ (p.status ≡ expired)
active_or_expired o p act (inl same) = inl same
active_or_expired o p act (inr lt) =
    inr (beyond_active p.status (subst (λ (s : OfferStatus). rank s < rank p.status) act lt))

stays_expired : (p q : OfferBrief) → p.status ≡ expired → Since p q → q.status ≡ expired
stays_expired p q over (inl same) = ap (λ (x : OfferBrief). x.status) same ∙ over
stays_expired p q over (inr lt) =
    absurd (beyond_expired q.status (subst (λ (s : OfferStatus). rank s < rank q.status) over lt))

swept_over :
    (now : DateTime) (id : String) (o p : OfferBrief) (s : Store)
    → IsGood s
    → o.status ≡ active
    → is_due now o.valid_until ≡ true
    → view (sweep memory_store now s).1 id ≡ some p
    → Since o p
    → p.status ≡ expired
swept_over now id o p s g act due there since = elim (active_or_expired o p act since) [
  | inr over ↦ over
  | inl same ↦
      let was : p.status ≡ active = ap (λ (x : OfferBrief). x.status) same ∙ act in
      let early : is_due now p.valid_until ≡ false = sweep_complete now id p s g there was in
      let late : is_due now p.valid_until ≡ true =
        ap (λ (x : OfferBrief). is_due now x.valid_until) same ∙ due in
      absurd (ground arith)
]

-- With the store in memory, an offer that is active and whose time has passed when a sweep comes is expired
-- from then on, whatever requests come before the sweep and after it and whatever they answer; under the
-- conditions under which requests keep the life of offers.
pub sweep_expires :
    (decode : String → Decoded) (now : DateTime) (before after : List Request)
    (s : DesignerState Store) (id : String) (o : OfferBrief)
    → AllFair memory_store memory_laws decode before s
    → AllFair memory_store memory_laws decode after
        (step memory_store decode (expire_due now) (run memory_store decode before s))
    → IsSound memory_store memory_laws s
    → view s.hub.store id ≡ some o
    → o.status ≡ active
    → is_due now o.valid_until ≡ true
    → (p : OfferBrief) × (view
          (run memory_store decode after (
            step memory_store decode (expire_due now) (run memory_store decode before s))).hub.store
          id
        ≡ some p)
      × (p.status ≡ expired)
unfolding memory_laws step
sweep_expires decode now before after s id o f f' k there act due =
    let h = memory_store in
    let s₁ = run h decode before s in
    let (k₁, on₁) = run-Better h memory_laws decode before s f k in
    let (k₂, on₂) = step-Better h memory_laws decode (expire_due now) s₁ tt k₁ in
    let s₂ = step h decode (expire_due now) s₁ in
    let (k₃, on₃) = run-Better h memory_laws decode after s₂ f' k₂ in
    let (p₁, there₁, since₁) = on₁ id o there in
    let (p₂, there₂, since₂) = on₂ id p₁ there₁ in
    let (p₃, there₃, since₃) = on₃ id p₂ there₂ in
    let over : p₂.status ≡ expired = elim (active_or_expired o p₁ act since₁) [
      | inr before_sweep ↦ stays_expired p₁ p₂ before_sweep since₂
      | inl same ↦
          swept_over now id o p₂ s₁.hub.store k₁.good act due there₂
            (subst (λ (x : OfferBrief). Since x p₂) same since₂)
    ] in
    (p₃, there₃, stays_expired p₂ p₃ over since₃)
