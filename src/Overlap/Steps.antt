-- ===== src/Overlap/Steps.antt =====
-- Every step of a task that knows what its handler has read.
pub mod Saves
pub mod Reads
pub mod Moves
pub mod Approvals
pub mod Sweeps
use mathlib.Core.Path.{subst}
use tristar.Base.{
  ℕ, String, Bool, true, Option, none, some, List, [], ◌∷◌, ◌≡◌, ◌≢◌, inl, inr, refl, arith, sym,
  ◌∙◌, ap, All, All-map, ◌==◌, eq_iff, Bool-cases,
}
use tristar.Clock.{DateTime}
use tristar.Outcome.{Result, ok, err}
use tristar.Core.Http.{HttpError}
use tristar.Core.Security.{AuthUser}
use tristar.Models.Offer.{
  OfferBrief, OfferStatus, approved, active, expired, TriggerType, is_critical, with_status,
}
use tristar.Hub.Store.{
  HubStore, HubStoreLaws, StoreError, redis_unavailable, already_exists, naive_and_aware, View,
  Same, IsStorable, ListSpec, GetSpec,
}
use tristar.Hub.Change.{
  Allowed, Changes, Same-Changes, updated-Changes, validate_transition-Allowed,
}
use tristar.Hub.Routes.{
  starts_wrong, validate_transition, save_offer, get_offer, list_offers, move, saved, read, listed,
  updated, since_utc,
}
use tristar.Hub.Routes.Lifecycle.{
  with_status-IsStorable, save_offer-Keeps, saved-store, get-Same, list-Same, read-store,
  listed-store, updated-store,
}
use tristar.Hub.Sweep.{is_due, count}
use tristar.Designer.Fraud.{validate}
use tristar.Designer.Claude.Parse.{ClaudeError}
use tristar.Designer.Routes
use tristar.Designer.Routes.{DesignerState, with_flags, checked, auto_save}
use tristar.Designer.Routes.Drafts.{
  with_flags-IsStorable, logged, checked_blocked, checked_passed, drafted-hub, checked-Keeps,
}
use tristar.Designer.Routes.Approvals.{recorded-hub, was_draft}
use tristar.Overlap.{
  Task, saving, reading, generated, changing, writing_status, approving, writing_approval, sweeping,
  expiring, answered, after_validation, after_read, after_draft, after_current, next_due,
  after_list, with_store, look_up, resume,
}
use tristar.Overlap.Knowledge.{mover, Knows, Listed, IsFromClaude, Leaves, IsDraft}
use tristar.Overlap.Effects.{
  Same-Leaves, saved-Leaves, updated-others, expired-Leaves, expires, changes_status, approves,
}

module _ (h : HubStore) (l : HubStoreLaws h) where
  open h use {State}

  -- What one step of a task `t` has done, which left `t'` to be done.
  pub record Steps (t : Task) (s : State) (t' : Task) (s' : State) : Type 0 where
    pub good : l.IsGood s'
    pub changes : Changes (l.view s) (l.view s')
    pub leaves : (id : String) → mover t ≢ some id → Leaves (l.view s id) (l.view s' id)
    pub knows : Knows (l.view s') t'
    pub same_mover : (id : String) → mover t' ≡ some id → mover t ≡ some id

  -- A step that only reads.
  pub reads :
      (t : Task) (s : State) (t' : Task) (s' : State)
      → l.IsGood s'
      → Same (l.view s) (l.view s')
      → Knows (l.view s') t'
      → ((id : String) → mover t' ≡ some id → mover t ≡ some id)
      → Steps t s t' s'
  reads t s t' s' g same k m = record {
    good = g;
    changes = Same-Changes (l.view s) (l.view s') same;
    leaves = λ id _. Same-Leaves (l.view s) (l.view s') same id;
    knows = k;
    same_mover = m;
  }

  pub none_moves : (t : Task) (id : String) → none ≡ some id → mover t ≡ some id
  none_moves t id e = absurd (ground arith)

  -- The mover of a task, as an id that another offer does not have.
  pub elsewhere :
      (o : OfferBrief) (mine id : String)
      → o.offer_id ≡ mine
      → some mine ≢ some id
      → o.offer_id ≢ id
  elsewhere o mine id named other e = other (ap some (sym named ∙ e))
