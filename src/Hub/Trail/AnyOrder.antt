-- ===== src/Hub/Trail/AnyOrder.antt =====
-- The tasks that `_fire_audit` of src/backend/api/hub.py has scheduled, written by `log_event` in whatever
-- order they come to it.

use native.Mathlib.Nat.{ℕ_set}
use mathlib.Core.Logic.{∥∥₁_elim}
use mathlib.Core.List.{Perm, append_assoc, append-nil, Permᴰ}
use tristar.Base.{sym, String, true, false, List, [], ◌∷◌, ◌++◌, ◌≡◌, refl, arith, ap, ◌∙◌}
use tristar.Hub.Audit.{HubAuditEvent, Database, create_table_sync, log_event}
use tristar.Hub.Routes.{HubState}
use tristar.Hub.Store.Memory.{Store}
use tristar.Hub.Store.Memory.Contract.{view}
use tristar.Hub.Told.{stage, status_of, stage_told, furthest}
use tristar.Hub.Trail.{
  IsTraced, post_offers-IsTraced, get_offers_id-IsTraced, get_offers-IsTraced,
  put_offers_id_status-IsTraced,
}
use tristar.Base.{Option}
use tristar.Base.Dict.{lookup}
use tristar.Clock.{DateTime}
use tristar.Core.Security.{Decoded}
use tristar.Models.Offer.{OfferBrief, OfferStatus, TriggerType}
use tristar.Hub.Store.Memory.{memory_store}
use tristar.Hub.Api.{post_offers, get_offers_id, get_offers, put_offers_id_status}

-- The rows of the events, written one after the other without a failure.
unfoldable pub written : List HubAuditEvent → Database → Database
unfolding log_event
written [] db = db
written (e ∷ events) db = written events (log_event true e db)

-- A table that has been made, with no rows.
abbrev pub new_table : Database
new_table = create_table_sync true (record { table = false; rows = [] })

rows-written :
    (events rows : List HubAuditEvent)
    → (written events (record { table = true; rows = rows })).rows ≡ rows ++ events
unfolding written log_event
rows-written [] rows = sym (append-nil rows)
rows-written (e ∷ events) rows =
    rows-written events (rows ++ e ∷ []) ∙ append_assoc rows (e ∷ []) events

furthest-Permᴰ :
    (id : String) {xs ys : List HubAuditEvent} → Permᴰ xs ys → furthest id xs ≡ furthest id ys
furthest-Permᴰ id Permᴰ.nil = refl
furthest-Permᴰ id (Permᴰ.cons {a} {b} same p) =
    let head_told = ap (stage_told id) same in
    let rest = furthest-Permᴰ id p in omega (arith, head_told, rest)
furthest-Permᴰ id (Permᴰ.swap first second) =
    let first_told = ap (stage_told id) first in
    let second_told = ap (stage_told id) second in omega (arith, first_told, second_told)
furthest-Permᴰ id (Permᴰ.trans p q) = furthest-Permᴰ id p ∙ furthest-Permᴰ id q

-- A request to the Hub, with its token.
pub data Request : Type 0 where
  save : String → OfferBrief → Request
  read : String → String → Request
  listing :
      String → Option OfferStatus → Option String → Option TriggerType → Option DateTime → Request
  set_status : String → String → OfferStatus → Request

module _ (decode : String → Decoded) where
  abbrev serve : Request → HubState Store → HubState Store
  serve (save token o) s = (post_offers memory_store decode token o s).1
  serve (read token id) s = (get_offers_id memory_store decode token id s).1
  serve (listing token status member trigger since) s =
      (get_offers memory_store decode token status member trigger since s).1
  serve (set_status token id new) s = (put_offers_id_status memory_store decode token id new s).1

  abbrev pub serve_all : List Request → HubState Store → HubState Store
  serve_all [] s = s
  serve_all (r ∷ requests) s = serve_all requests (serve r s)

  serve-IsTraced : (r : Request) (s : HubState Store) → IsTraced s → IsTraced (serve r s)
  serve-IsTraced (save token o) s t = post_offers-IsTraced decode token o s t
  serve-IsTraced (read token id) s t = get_offers_id-IsTraced decode token id s t
  serve-IsTraced (listing token status member trigger since) s t =
      get_offers-IsTraced decode token status member trigger since s t
  serve-IsTraced (set_status token id new) s t =
      put_offers_id_status-IsTraced decode token id new s t

  serve_all-IsTraced :
      (requests : List Request) (s : HubState Store) → IsTraced s → IsTraced (serve_all requests s)
  serve_all-IsTraced [] s t = t
  serve_all-IsTraced (r ∷ requests) s t =
      serve_all-IsTraced requests (serve r s) (serve-IsTraced r s t)

-- The Hub at its start: no offers, and no events.
abbrev pub new_hub : HubState Store
new_hub = record { store = []; audit_tasks = [] }

new_hub-IsTraced : IsTraced new_hub
unfolding lookup
new_hub-IsTraced = record {
  good = record { dict = tt; entries = tt };
  told = λ id. refl;
  reached = λ id. refl;
}

-- After any requests to a Hub that started with an empty store in memory, whatever their tokens and their
-- answers: if the writes of the events come to a new table in any order and none fails, then the rows tell the
-- status of every offer. It is the furthest in the life of an offer that a row about this offer names, and
-- there is no offer where no row names a status.
pub rows_any_order :
    (decode : String → Decoded) (requests : List Request) (order : List HubAuditEvent) (id : String)
    → Perm (serve_all decode requests new_hub).audit_tasks order
    → furthest id (written order new_table).rows
      ≡ stage (status_of (view (serve_all decode requests new_hub).store id))
unfolding create_table_sync
rows_any_order decode requests order id p =
    let t = serve_all-IsTraced decode requests new_hub new_hub-IsTraced in
    ap (furthest id) (rows-written order [])
    ∙ sym (∥∥₁_elim p (ℕ_set _ _) (λ d. furthest-Permᴰ id d))
    ∙ t.reached id
