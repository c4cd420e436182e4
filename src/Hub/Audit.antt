-- ===== src/Hub/Audit.antt =====
-- src/backend/services/hub_audit_service.py: the audit rows of the Hub, and the background tasks that
-- write them. The database is not part of the program: each write is told whether it succeeds.
use tristar.Base.{String, Bool, true, ◌&&◌, Option, List, [], ◌∷◌, ◌++◌, if◌then◌else◌}
use tristar.Models.Offer.{OfferStatus}

pub data EventKind : Type 0 where
  offer_created status_transition offer_read fraud_blocked : EventKind

pub record HubAuditEvent : Type 0 where
  pub offer_id : String
  pub event : EventKind
  pub old_status : Option OfferStatus
  pub new_status : Option OfferStatus
  pub actor_id : String
  pub fraud_severity : Option String

-- the table `hub_audit_log`, if it exists, and its rows without their numbers and times
pub record Database : Type 0 where
  pub table : Bool
  pub rows : List HubAuditEvent

-- `_create_table_sync`: `CREATE TABLE IF NOT EXISTS`, whose failure is only logged
unfoldable pub create_table_sync : Bool → Database → Database
create_table_sync success db = if success then record db { table = true } else db

-- `log_event`: an insert fails without a table or for the database, and a failure is only logged
unfoldable pub log_event : Bool → HubAuditEvent → Database → Database
log_event success event db =
    if db.table && success then record db { rows = db.rows ++ event ∷ [] } else db
