-- ===== src/Overlap/Steps/Saves.antt =====
-- The steps that save an offer: `save_offer`, and `generate_offer_brief` after Claude's answer.
use mathlib.Core.Path.{subst}
use tristar.Base.{String, Bool, ◌≡◌, inl, inr, refl, arith, Bool-cases}
use tristar.Outcome.{Result, ok, err}
use tristar.Core.Security.{AuthUser}
use tristar.Models.Offer.{OfferBrief}
use tristar.Hub.Store.{HubStore, HubStoreLaws, IsStorable}
use tristar.Hub.Routes.{starts_wrong, save_offer}
use tristar.Hub.Routes.Lifecycle.{save_offer-Keeps, saved-store}
use tristar.Designer.Fraud.{validate}
use tristar.Designer.Claude.Parse.{ClaudeError}
use tristar.Designer.Routes.{DesignerState, with_flags, checked}
use tristar.Designer.Routes.Drafts.{
  with_flags-IsStorable, logged, checked_blocked, checked_passed, drafted-hub, checked-Keeps,
}
use tristar.Overlap.{saving, generated, resume}
use tristar.Overlap.Knowledge.{IsFromClaude, Leaves}
use tristar.Overlap.Effects.{Same-Leaves, saved-Leaves}
use tristar.Overlap.Steps.{Steps, none_moves}

module _ (h : HubStore) (l : HubStoreLaws h) where
  open h use {State}

  pub saving-Steps :
      (user : AuthUser) (o : OfferBrief) (s : DesignerState State)
      → IsStorable o
      → l.IsGood s.hub.store
      → Steps h l
          (saving user o)
          s.hub.store
          (resume h (saving user o) s).0
          (resume h (saving user o) s).1.hub.store
  unfolding resume
  saving-Steps user o s st g =
      let k = save_offer-Keeps h l user o s.hub st g in
      record {
        good = k.good;
        changes = k.changes;
        leaves = λ id _. left id;
        knows = tt;
        same_mover = none_moves h l (saving user o);
      }
    where
      left :
          (id : String)
          → Leaves (l.view s.hub.store id) (l.view (save_offer h user o s.hub).1.store id)
      left id =
          unfold save_offer in
          elim (Bool-cases (starts_wrong o)) [
            | inl wrong ↦
                rw wrong (Same-Leaves (l.view s.hub.store) (l.view s.hub.store) (λ j. refl) id)
            | inr right ↦
                let (r, store) = h.save o s.hub.store in
                let same = saved-store h l user o r (record s.hub { store = store }) in
                rw (right, same)
                  (saved-Leaves o (l.view s.hub.store) (l.view store) r
                    (l.save_lem o s.hub.store st g) id)
          ]

  checked-Leaves :
      (user : AuthUser) (r : Result ClaudeError OfferBrief) (s : DesignerState State)
      → IsFromClaude r
      → l.IsGood s.hub.store
      → (id : String) → Leaves (l.view s.hub.store id) (l.view (checked h user r s).1.hub.store id)
  checked-Leaves user (err e) s f g id =
      unfold checked in Same-Leaves (l.view s.hub.store) (l.view s.hub.store) (λ j. refl) id
  checked-Leaves user (ok o) s f g id =
      let v = validate s.counts o user.user_id in
      elim (Bool-cases v.blocked) [
        | inl blocked ↦
            rw (checked_blocked h l user o s blocked)
              (Same-Leaves (l.view s.hub.store) (l.view s.hub.store) (λ j. refl) id)
        | inr passed ↦
            let flagged = with_flags v o in
            let (r, store) = h.save flagged s.hub.store in
            let start = logged h l user o s in
            let same =
              drafted-hub h l flagged r
                (record start { hub = record start.hub { store = store } }) in
            rw (checked_passed h l user o s passed, same)
              (saved-Leaves flagged (l.view s.hub.store) (l.view store) r
                (l.save_lem flagged s.hub.store (with_flags-IsStorable v o f.0) g) id)
      ]

  pub generated-Steps :
      (user : AuthUser) (r : Result ClaudeError OfferBrief) (s : DesignerState State)
      → IsFromClaude r
      → l.IsGood s.hub.store
      → Steps h l
          (generated user r)
          s.hub.store
          (resume h (generated user r) s).0
          (resume h (generated user r) s).1.hub.store
  unfolding resume
  generated-Steps user r s f g =
      let k = checked-Keeps h l user r s (from r f) g in
      record {
        good = k.good;
        changes = k.changes;
        leaves = λ id _. checked-Leaves user r s f g id;
        knows = tt;
        same_mover = none_moves h l (generated user r);
      }
    where
      from :
          (r : Result ClaudeError OfferBrief)
          → IsFromClaude r
          → (o : OfferBrief) → r ≡ ok o
          → IsStorable o × (starts_wrong o ≡ Bool.false)
      from (ok p) f o e =
          let same : p ≡ o = ground arith in
          subst (λ (x : OfferBrief). IsStorable x × (starts_wrong x ≡ Bool.false)) same f
      from (err _) f o e = absurd (ground arith)
