-- ===== src/Lib.antt =====
-- TriStar: an offer platform of three layers, in src/backend.
--
-- Scout takes purchase events from a webhook, scores them and asks the Designer for an offer; the
-- Designer has Claude write offers, checks them for fraud and has marketers approve them; the Hub is the
-- shared store of offers with the life of an offer: draft, approved, active, expired.
--
-- The parts and their files:
--   * Clock, Outcome, Base: Python's datetimes, code that may raise, and lists, texts and dicts.
--   * Models: the pydantic models of src/backend/models, with their validation (Models/Validation).
--   * Core: src/backend/core, the settings, the roles and `HTTPException`.
--   * AuditLog: src/backend/services/audit_log_service.py, the entries that the calls write.
--     AuditLog/Scrub: `_scrub_pii` with its patterns, over AuditLog/Regex, the part of `re` it needs.
--   * Scout/Scoring, Constraints, Events, Notification, ServiceAuth:
--     context_scoring_service.py, delivery_constraint_service.py, purchase_event_handler.py,
--     notification_service.py and scout_service_auth.py of src/backend/services. Scout/Webhook and
--     Scout/Routes: src/backend/api/scout.py. `process_purchase_event` runs the handler, the score, the
--     constraints, the call of the Designer and the notification in the order of the code.
--     Scout/Overlap: the same handler as tasks that give way at each `await`, with `resume`, `run` and
--     Scout/Overlap/Alone as in Overlap below.
--   * Hub/Store: the protocol `HubStore` of hub_store.py, as a record of operations and a record of laws
--     (`HubStoreLaws`): a view of the state as a map from ids to offers, and what each operation does to
--     the view, also where it fails. Hub/Store/Memory is `InMemoryHubStore` and Hub/Store/Redis is
--     `RedisHubStore`, which both keep the laws.
--     Hub/Routes: the handlers of src/backend/api/hub.py, over any store. Hub/Change: how an entry may
--     change in one request. Hub/Api: the routes, with the roles and the validation of bodies. Hub/Sweep:
--     `_expire_offers_task` of src/backend/main.py. Hub/Audit: hub_audit_service.py; Hub/Told and Hub/Trail:
--     what the events say of the statuses, in the order of the requests and in any other.
--   * Designer/Fraud, HubClient, Inventory, Claude: fraud_check_service.py, hub_api_client.py,
--     inventory_service.py and claude_api.py. Designer/Routes: src/backend/api/designer.py, over any
--     store for the Hub and any network to it; Designer/Api: its routes.
--   * System: the Hub and the Designer over one store, as a sequence of requests and sweeps, and
--     System/Purchase: Scout's handler with the Designer's route at the other end.
--   * Overlap: the same handlers and the sweep as tasks of one event loop, which may change at each
--     `await` of the store. `resume` is one step of a task, from a call of the store to the next;
--     `run` is a sequence of arrivals and steps in any order. Overlap/Alone relates tasks and handlers.
--   * Main: the checks at the start, the life of the application, its handlers of exceptions, the health
--     check, and the choice of the store, of src/backend/main.py and src/backend/api/deps.py.
--   * Tests: runs on sample data.
--
-- How the code is modelled. A service's mutable fields are a record that a handler takes and gives back,
-- with what was written before an exception. Readings of the clock and new ids are arguments, so they
-- are as they come. Times are microseconds; money is in cents, a rate or a construct's value in
-- hundredths, a distance in metres, all natural numbers. `lower` of a text changes the letters
-- of ASCII only. What is not in the repository is a parameter:
-- HMAC, SHA-256, JWT, JSON with pydantic, the Redis server, the Claude API, the push provider and the
-- network. Loops are structural; the retries are a list of three delays and the push attempts a count of
-- three, so no fuel is needed. In System a handler runs as a whole, as it does over `InMemoryHubStore`,
-- whose methods never suspend. In Overlap a step is one call of the store; the listing of
-- `RedisHubStore`, a SCAN and an MGET, counts as one step, at the MGET.
--
-- Not modelled: FastAPI's middleware, the logging set-up, the dependency singletons, the texts of prompts
-- and messages (a constructor with its values stands for a text), the frontend.
pub mod Base
pub mod Outcome
pub mod Clock
pub mod Models
pub mod Core
pub mod AuditLog
pub mod Scout
pub mod Hub
pub mod Designer
pub mod System
pub mod Overlap
pub mod Main
pub mod Tests
