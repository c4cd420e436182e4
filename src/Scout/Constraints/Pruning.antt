-- ===== src/Scout/Constraints/Pruning.antt =====
-- `record_delivery` drops deliveries older than 48 hours: what that leaves out, no later verdict
-- would have read. So a verdict speaks of every delivery that was ever recorded.
use tristar.Base.{
  ℕ, ◌-◌, ◌*◌, ◌≤◌, String, List, [], ◌∷◌, ◌++◌, ◌≡◌, inl, inr, refl, sym, ap, arith, leb, keep,
  ◌==◌, if◌then◌else◌, Bool-cases, ◌∙◌,
}
use tristar.Base.Dict.{lookup-insert, insert}
use tristar.Clock.{hour}
use tristar.Scout.Constraints.{Service, deliveries, record_delivery}

keep-append :
    (since : ℕ) (xs ys : List ℕ)
    → keep (λ ts. leb since ts) (xs ++ ys)
      ≡ keep (λ ts. leb since ts) xs ++ keep (λ ts. leb since ts) ys
keep-append since [] ys = refl
keep-append since (x ∷ xs) ys = ground (arith, keep-append since xs ys)

-- A later window does not see what an earlier cutoff has dropped.
keep-keep :
    (cutoff since : ℕ) (log : List ℕ)
    → cutoff ≤ since
    → keep (λ ts. leb since ts) (keep (λ ts. leb cutoff ts) log) ≡ keep (λ ts. leb since ts) log
keep-keep cutoff since [] h = refl
keep-keep cutoff since (t ∷ log) h = ground (arith, keep-keep cutoff since log h)

-- The delivery log with nothing dropped.
pub record_all_time : Service → String → ℕ → Service
record_all_time s member_id now = record s {
  delivery_log = insert member_id (deliveries s member_id ++ now ∷ []) s.delivery_log;
}

pub deliveries-record :
    (s : Service) (m j : String) (t : ℕ)
    → deliveries (record_delivery s m t) j ≡ (
        if m == j
        then keep (λ ts. leb (t - 48 * hour) ts) (deliveries s m ++ t ∷ [])
        else deliveries s j)
unfolding record_delivery deliveries
deliveries-record s m j t = rw lookup-insert (ground arith)

pub deliveries-record_all_time :
    (s : Service) (m j : String) (t : ℕ)
    → deliveries (record_all_time s m t) j
      ≡ (if m == j then deliveries s m ++ t ∷ [] else deliveries s j)
unfolding record_all_time deliveries
deliveries-record_all_time s m j t = rw lookup-insert (ground arith)

-- Deliveries as they were made: to whom and when.
abbrev pub History : Type 0
History = List (String × ℕ)

-- The times do not fall, from `t` on.
abbrev pub IsOrdered : ℕ → History → Type 0
IsOrdered t [] = Unit
IsOrdered t ((m, u) ∷ rest) = (t ≤ u) × IsOrdered u rest

abbrev pub last_time : ℕ → History → ℕ
last_time t [] = t
last_time t ((m, u) ∷ rest) = last_time u rest

unfoldable pub recorded : Service → History → Service
recorded s [] = s
recorded s ((m, u) ∷ rest) = recorded (record_delivery s m u) rest

unfoldable pub all_recorded : Service → History → Service
all_recorded s [] = s
all_recorded s ((m, u) ∷ rest) = all_recorded (record_all_time s m u) rest

-- The two logs give the same answer to each query about the last 48 hours.
abbrev Agrees : ℕ → Service → Service → Type 0
Agrees t s f =
    (j : String) (since : ℕ)
    → t - 48 * hour ≤ since
    → keep (λ ts. leb since ts) (deliveries s j) ≡ keep (λ ts. leb since ts) (deliveries f j)

Agrees-record :
    (t u : ℕ) (m : String) (s f : Service)
    → t ≤ u
    → Agrees t s f
    → Agrees u (record_delivery s m u) (record_all_time f m u)
Agrees-record t u m s f le h j since in_window =
    rw (deliveries-record, deliveries-record_all_time)
      (elim (Bool-cases (m == j)) [
        | inl same ↦ rw same (
            keep-keep _ since (deliveries s m ++ u ∷ []) in_window
            ∙ keep-append since (deliveries s m) (u ∷ [])
            ∙ ap (λ l. l ++ keep (λ ts. leb since ts) (u ∷ [])) (h m since (omega arith))
            ∙ sym (keep-append since (deliveries f m) (u ∷ [])))
        | inr other ↦ rw other (h j since (omega arith))
      ])

pub Agrees-recorded :
    (t : ℕ) (history : History) (s f : Service)
    → IsOrdered t history
    → Agrees t s f
    → Agrees (last_time t history) (recorded s history) (all_recorded f history)
unfolding recorded all_recorded
Agrees-recorded t [] s f o h = h
Agrees-recorded t ((m, u) ∷ rest) s f o h =
    Agrees-recorded u rest (record_delivery s m u) (record_all_time f m u) o.1
      (Agrees-record t u m s f o.0 h)
