-- ===== src/Hub/Sweep.antt =====
-- One round of `_expire_offers_task` in src/backend/main.py: active offers whose time has passed are
-- marked expired. The round sees one state of the store from its listing to its last update.
pub mod Expiry
pub mod Complete
use tristar.Base.{ℕ, ◌+◌, Bool, true, false, Option, none, some, List, [], ◌∷◌, if◌then◌else◌}
use tristar.Clock.{DateTime, TypeError, as_utc, lt_dt}
use tristar.Outcome.{Result, ok, err}
use tristar.Models.Offer.{OfferBrief, active, expired, with_status}
use tristar.Hub.Store.{HubStore, StoreError}

abbrev or_false : Result TypeError Bool → Bool
or_false (ok b) = b
or_false (err _) = false

-- `valid_until < now`, for a time that counts as UTC if it is naive. `now` is aware, so the comparison
-- does not raise.
unfoldable pub is_due : DateTime → Option DateTime → Bool
is_due now none = false
is_due now (some valid_until) = or_false (lt_dt (as_utc valid_until) now)

abbrev pub count : Result StoreError (Unit {0}) → ℕ → ℕ
count (ok _) n = n + 1
count (err _) n = n

module _ (h : HubStore) where
  open h use {State}

  -- the loop over the active offers, with the number that was expired
  unfoldable pub expire_each : DateTime → List OfferBrief → ℕ → State → ℕ × State
  unfolding is_due
  expire_each now [] expired_count s = (expired_count, s)
  expire_each now (o ∷ offers) expired_count s =
      let (r, s') = h.update (with_status expired o) s in
      let skip = expire_each now offers expired_count s in
      let next = expire_each now offers (count r expired_count) s' in
      if is_due now o.valid_until then next else skip

  abbrev pub swept : DateTime → Result StoreError (List OfferBrief) → State → ℕ × State
  swept now (err e) s = (0, s)
  swept now (ok offers) s = expire_each now offers 0 s

  -- the body of the `while` loop
  unfoldable pub sweep : DateTime → State → ℕ × State
  unfolding expire_each
  sweep now s = let (r, s') = h.list (some active) none none s in swept now r s'
