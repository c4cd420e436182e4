-- ===== src/Scout/Constraints/Spacing.antt =====
-- The verdicts on the deliveries to one member, over a whole history.
use tristar.Base.{
  ℕ, ◌+◌, ◌-◌, ◌*◌, ◌≤◌, ◌<◌, String, Bool, List, [], ◌∷◌, ◌++◌, ◌≡◌, ◌⊎◌, inl, inr, none, arith,
  leb, keep, All, eq_iff, Bool-cases, refl, ◌==◌,
}
use tristar.Clock.{hour}
use tristar.Core.Config.{Settings}
use tristar.Scout.Constraints.{Service, new, deliveries, can_deliver, record_delivery}
use tristar.Scout.Constraints.Verdicts.{NoneWithin, can_deliver-Allowed, keep_none, none_kept}
use tristar.Scout.Constraints.Pruning.{
  record_all_time, deliveries-record_all_time, History, IsOrdered, last_time, recorded,
  all_recorded, Agrees-recorded, deliveries-record,
}

module _ (P : ℕ → Type 0) where
  All-append_left : (xs ys : List ℕ) → All P (xs ++ ys) → All P xs
  All-append_left [] ys h = tt
  All-append_left (x ∷ xs) ys h = (h.0, All-append_left xs ys h.1)

  All-append_last : (xs : List ℕ) (y : ℕ) → All P (xs ++ y ∷ []) → P y
  All-append_last [] y h = h.0
  All-append_last (x ∷ xs) y h = All-append_last xs y h.1

  older_deliveries :
      (s : Service) (m j : String) (u : ℕ)
      → All P (deliveries (record_all_time s m u) j)
      → All P (deliveries s j)
  older_deliveries s m j u h = elim (Bool-cases (m == j)) [
    | inl same ↦
        let e : m ≡ j = (eq_iff m j).0 same in
        rw (← e)
          (All-append_left (deliveries s m) (u ∷ []) (rw (deliveries-record_all_time, same) at h))
    | inr other ↦ rw (deliveries-record_all_time, other) at h
  ]

  older_history :
      (s : Service) (history : History) (m : String)
      → All P (deliveries (all_recorded s history) m)
      → All P (deliveries s m)
  unfolding all_recorded
  older_history s [] m h = h
  older_history s ((m', u) ∷ rest) m h =
      older_deliveries s m' m u (older_history (record_all_time s m' u) rest m h)

  newest : (s : Service) (m : String) (u : ℕ) → All P (deliveries (record_all_time s m u) m) → P u
  newest s m u h =
      All-append_last (deliveries s m) u (rw (deliveries-record_all_time, (eq_iff m m).1 refl) at h)

  -- What holds of every delivery on record holds of each entry of the history.
  All-history :
      (s : Service) (history : History) (m : String)
      → All P (deliveries (all_recorded s history) m)
      → All (λ e. e.0 ≡ m → P e.1) history
  unfolding all_recorded
  All-history s [] m h = tt
  All-history s ((m', u) ∷ rest) m h = (
    λ (e : m' ≡ m). newest s m u (rw e at (older_history (record_all_time s m' u) rest m h)),
    All-history (record_all_time s m' u) rest m h,
  )

module _ (history : History) (now : ℕ) (ordered : IsOrdered 0 history)
    (after : last_time 0 history ≤ now) where
  NoneWithin-all :
      (m : String) (hours : ℕ)
      → hours ≤ 48
      → NoneWithin (recorded new history) m now hours
      → NoneWithin (all_recorded new history) m now hours
  NoneWithin-all m hours le h = keep_none _ _ (
      rw
        (← Agrees-recorded 0 history new new ordered (λ j since p. refl) m (now - hours * hour)
          (omega arith))
        (none_kept _ _ h))

All-apart :
    (now gap : ℕ) (log : List ℕ) → All (λ ts. ts < now - gap) log → All (λ ts. ts + gap < now) log
All-apart now gap [] h = tt
All-apart now gap (t ∷ log) h = (omega (arith, h.0), All-apart now gap log h.1)

-- Every entry of the history that is about the member lies more than `hours` hours before `now`.
abbrev pub Apart : History → String → ℕ → ℕ → Type 0
Apart history m now hours = All (λ e. e.0 ≡ m → e.1 + hours * hour < now) history

NoneWithin-Apart :
    (history : History) (now : ℕ) (m : String) (hours : ℕ)
    → IsOrdered 0 history
    → last_time 0 history ≤ now
    → hours ≤ 48
    → NoneWithin (recorded new history) m now hours
    → Apart history m now hours
NoneWithin-Apart history now m hours ordered after le h =
    All-history (λ ts. ts + hours * hour < now) new history m
      (All-apart now (hours * hour) _ (NoneWithin-all history now ordered after m hours le h))

-- Whatever was delivered before, in the order of time, an offer is let out to a member only if
-- every earlier delivery to the member is further back than the rate limit, and further back than
-- the duplicate window or the purchase is above the high-value threshold. The windows must not be
-- longer than the 48 hours for which the log is kept.
pub delivery_spacing :
    (cfg : Settings) (history : History) (m : String) (amount now : ℕ) (enabled : Bool)
    → IsOrdered 0 history
    → last_time 0 history ≤ now
    → cfg.purchase_trigger_rate_limit_hours ≤ 48
    → cfg.dedup_window_hours ≤ 48
    → can_deliver cfg (recorded new history) m amount now enabled ≡ none
    → Apart history m now cfg.purchase_trigger_rate_limit_hours
      × ((cfg.high_value_purchase_threshold < amount) ⊎ Apart history m now cfg.dedup_window_hours)
delivery_spacing cfg history m amount now enabled ordered after r d h =
    let allowed = (can_deliver-Allowed cfg (recorded new history) m amount now enabled).0 h in
    (
      NoneWithin-Apart history now m _ ordered after r allowed.rate,
      elim allowed.fresh [
        | inl high ↦ inl high
        | inr fresh ↦ inr (NoneWithin-Apart history now m _ ordered after d fresh)
      ],
    )

keep-append_last :
    (cutoff t : ℕ) (log : List ℕ)
    → cutoff ≤ t
    → keep (λ ts. leb cutoff ts) (log ++ t ∷ []) ≡ keep (λ ts. leb cutoff ts) log ++ t ∷ []
keep-append_last cutoff t [] h = ground arith
keep-append_last cutoff t (u ∷ log) h = ground (arith, keep-append_last cutoff t log h)

pub deliveries-record_self :
    (s : Service) (m : String) (t : ℕ)
    → deliveries (record_delivery s m t) m
      ≡ keep (λ ts. leb (t - 48 * hour) ts) (deliveries s m) ++ t ∷ []
deliveries-record_self s m t =
    rw (deliveries-record, (eq_iff m m).1 refl)
      (keep-append_last _ t (deliveries s m) (omega arith))
