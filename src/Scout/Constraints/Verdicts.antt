-- ===== src/Scout/Constraints/Verdicts.antt =====
-- What a verdict of `can_deliver` says of the deliveries on record.
use tristar.Base.{
  ℕ, ◌-◌, ◌*◌, ◌<◌, String, Bool, true, false, not, none, List, [], ◌∷◌, ◌≡◌, ◌⊎◌, ◌↔◌, inl, inr,
  refl, arith, leb, keep, is_empty, All,
}
use tristar.Clock.{hour}
use tristar.Core.Config.{Settings}
use tristar.Scout.Constraints.{
  Service, deliveries, get_deliveries_since, is_quiet_hours, judge, can_deliver,
}

pub keep_none :
    (since : ℕ) (log : List ℕ)
    → is_empty (keep (λ ts. leb since ts) log) ≡ true
    → All (λ ts. ts < since) log
keep_none since [] h = tt
keep_none since (t ∷ log) h = ground (arith, keep_none since log)

pub none_kept :
    (since : ℕ) (log : List ℕ)
    → All (λ ts. ts < since) log
    → is_empty (keep (λ ts. leb since ts) log) ≡ true
none_kept since [] h = refl
none_kept since (t ∷ log) h = ground (arith, none_kept since log h.1)

-- No delivery to the member lies in the last `hours` hours.
abbrev pub NoneWithin : Service → String → ℕ → ℕ → Type 0
NoneWithin s member_id now hours = All (λ ts. ts < now - hours * hour) (deliveries s member_id)

-- What has to hold for an offer to go out.
pub record Allowed (cfg : Settings) (s : Service) (member_id : String) (amount now : ℕ)
    (enabled : Bool) : Type 0 where
  pub opted_in : enabled ≡ true
  pub rate : NoneWithin s member_id now cfg.purchase_trigger_rate_limit_hours
  pub fresh :
      (cfg.high_value_purchase_threshold < amount)
      ⊎ NoneWithin s member_id now cfg.dedup_window_hours
  pub awake : is_quiet_hours cfg now ≡ false

abbrev within : Settings → Service → String → ℕ → ℕ → Bool
within cfg s member_id now hours = is_empty (get_deliveries_since s member_id (now - hours * hour))

within→NoneWithin :
    (s : Service) (member_id : String) (now hours : ℕ)
    → is_empty (get_deliveries_since s member_id (now - hours * hour)) ≡ true
    → NoneWithin s member_id now hours
unfolding get_deliveries_since
within→NoneWithin s member_id now hours h = keep_none _ (deliveries s member_id) h

NoneWithin→within :
    (s : Service) (member_id : String) (now hours : ℕ)
    → NoneWithin s member_id now hours
    → is_empty (get_deliveries_since s member_id (now - hours * hour)) ≡ true
unfolding get_deliveries_since
NoneWithin→within s member_id now hours h = none_kept _ (deliveries s member_id) h

judge-none :
    (cfg : Settings) (amount : ℕ) (enabled e6 e24 quiet : Bool)
    → judge cfg amount enabled (not e6) (not e24) quiet ≡ none
    → (enabled ≡ true)
      × (e6 ≡ true)
      × ((cfg.high_value_purchase_threshold < amount) ⊎ (e24 ≡ true))
      × (quiet ≡ false)
unfolding judge
judge-none cfg amount enabled e6 e24 quiet h = ground arith

none-judge :
    (cfg : Settings) (amount : ℕ) (enabled e6 e24 quiet : Bool)
    → enabled ≡ true
    → e6 ≡ true
    → (cfg.high_value_purchase_threshold < amount) ⊎ (e24 ≡ true)
    → quiet ≡ false
    → judge cfg amount enabled (not e6) (not e24) quiet ≡ none
unfolding judge
none-judge cfg amount enabled e6 e24 quiet a b c d = ground arith

-- `can_deliver` lets an offer out exactly if the member has opted in, has no delivery in the last
-- hours of the rate limit, none in the hours of the duplicate window unless the purchase is above
-- the high-value threshold, and it is not quiet hours.
pub can_deliver-Allowed :
    (cfg : Settings) (s : Service) (member_id : String) (amount now : ℕ) (enabled : Bool)
    → (can_deliver cfg s member_id amount now enabled ≡ none)
      ↔ Allowed cfg s member_id amount now enabled
unfolding can_deliver
can_deliver-Allowed cfg s m amount now enabled = (
  λ h.
      let (a, b, c, d) = judge-none cfg amount enabled _ _ _ h in
      record {
        opted_in = a;
        rate = within→NoneWithin s m now _ b;
        fresh = elim c [ inl high ↦ inl high | inr e ↦ inr (within→NoneWithin s m now _ e) ];
        awake = d;
      },
  λ h.
      none-judge cfg amount enabled _ _ _ h.opted_in (NoneWithin→within s m now _ h.rate)
        (elim h.fresh [ inl high ↦ inl high | inr e ↦ inr (NoneWithin→within s m now _ e) ])
        h.awake,
)
