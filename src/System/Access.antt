-- ===== src/System/Access.antt =====
-- The tokens of the Hub and the Designer: what a request may change, and with which token.
use tristar.Base.{String, ◌≡◌, ◌⊎◌, inl, inr, refl, eq_iff, Bool-cases, ◌==◌, arith, ap}
use tristar.Outcome.{Result, ok, err}
use tristar.Core.Http.{HttpError, http, role_required}
use tristar.Core.Security.{AuthUser, Decoded, get_current_user, check_role, require_role}
use tristar.Hub.Store.{HubStore}
use tristar.Hub.Api.{with_user, post_offers, get_offers_id, get_offers, put_offers_id_status}
use tristar.Designer.Api.{post_generate, post_generate_purchase, post_approve_id}
use tristar.Designer.Routes.{DesignerState}
use tristar.System.{
  Request, save, read, list, set_status, generate, generate_purchase, approve, expire_due, step,
  in_hub,
}

module _ (decode : String → Decoded) where
  -- The token is that of a user, and of one with the role.
  abbrev IsUser : String → Type 0
  IsUser token = (user : AuthUser) × (get_current_user decode token ≡ ok user)

  abbrev HasRole : String → String → Type 0
  HasRole role token =
      (user : AuthUser) × (get_current_user decode token ≡ ok user) × (user.role ≡ role)

  -- The sweep is not a request of a caller.
  abbrev pub Authorized : Request → Type 0
  Authorized (save token o) = HasRole "system" token
  Authorized (read token id) = IsUser token
  Authorized (list token status member trigger since) = IsUser token
  Authorized (set_status token id new) = HasRole "system" token
  Authorized (generate b cfg token request i) = HasRole "marketing" token
  Authorized (generate_purchase b cfg token hub_token ctx i) = HasRole "system" token
  Authorized (approve token id o) = HasRole "marketing" token
  Authorized (expire_due now) = Unit {0}

  IsUser-cases :
      (token : String) → IsUser token ⊎ ((e : HttpError) × (get_current_user decode token ≡ err e))
  IsUser-cases token = of (get_current_user decode token) refl
    where
      of :
          (r : Result HttpError AuthUser)
          → get_current_user decode token ≡ r
          → IsUser token ⊎ ((e : HttpError) × (get_current_user decode token ≡ err e))
      of (ok user) is = inl (user, is)
      of (err e) is = inr (e, is)

  HasRole-cases :
      (role token : String)
      → HasRole role token ⊎ ((e : HttpError) × (require_role decode role token ≡ err e))
  unfolding require_role check_role
  HasRole-cases role token = elim (IsUser-cases token) [
    | inr (e, is) ↦ inr (e, rw (require_role, is) refl)
    | inl (user, is) ↦ elim (Bool-cases (user.role == role)) [
      | inl same ↦ inl (user, is, (eq_iff user.role role).0 same)
      | inr other ↦
          inr
            (http 403 (role_required role user.role), rw (require_role, is, check_role, other) refl)
    ]
  ]

  module _ (h : HubStore) where
    open h use {State}

    denied :
        {S A : Type 0} (r : Result HttpError AuthUser)
        (handler : AuthUser → S → Result HttpError A × S) (s : S) {e : HttpError}
        → r ≡ err e
        → (with_user r handler s).1 ≡ s
    denied (err e) handler s is = refl
    denied (ok user) handler s is = absurd (ground arith)

    -- A request leaves the whole state as it was, or the token that came with it is that of a user, with
    -- the system role for a save, a change of status or a purchase offer, and the marketing role for a
    -- generation or an approval.
    pub step-Authorized :
        (r : Request) (s : DesignerState State) → (step h decode r s ≡ s) ⊎ Authorized r
    unfolding step post_offers get_offers_id get_offers put_offers_id_status post_generate
        post_generate_purchase post_approve_id
    step-Authorized (save token o) s = elim (HasRole-cases "system" token) [
      | inl may ↦ inr may
      | inr (e, is) ↦ inl (ap (in_hub h decode s) (denied _ _ s.hub is))
    ]
    step-Authorized (read token id) s = elim (IsUser-cases token) [
      | inl may ↦ inr may
      | inr (e, is) ↦ inl (ap (in_hub h decode s) (denied _ _ s.hub is))
    ]
    step-Authorized (list token status member trigger since) s = elim (IsUser-cases token) [
      | inl may ↦ inr may
      | inr (e, is) ↦ inl (ap (in_hub h decode s) (denied _ _ s.hub is))
    ]
    step-Authorized (set_status token id new) s = elim (HasRole-cases "system" token) [
      | inl may ↦ inr may
      | inr (e, is) ↦ inl (ap (in_hub h decode s) (denied _ _ s.hub is))
    ]
    step-Authorized (generate b cfg token request i) s = elim (HasRole-cases "marketing" token) [
      | inl may ↦ inr may
      | inr (e, is) ↦ inl (denied _ _ s is)
    ]
    step-Authorized (generate_purchase b cfg token hub_token ctx i) s =
        elim (HasRole-cases "system" token) [
          | inl may ↦ inr may
          | inr (e, is) ↦ inl (denied _ _ s is)
        ]
    step-Authorized (approve token id o) s = elim (HasRole-cases "marketing" token) [
      | inl may ↦ inr may
      | inr (e, is) ↦ inl (denied _ _ s is)
    ]
    step-Authorized (expire_due now) s = inr tt
