-- ===== src/BetMaker/AppState.antt =====
-- `app.state` of src/bet_maker: what lifespan.py pins there, and the providers of facades/deps.py that
-- read it. The objects that libraries make are numbers.
use bsw.Common.{ℕ, Option, none, some}
use bsw.BetMaker.Exceptions.{Outcome, returned, raised, other_error}
use bsw.BetMaker.Settings.{BetMakerSettings, HttpEventLookup, route_lookup, reconciler_lookup}
use bsw.BetMaker.UnitOfWork.{PostgresUnitOfWork, new_uow}

-- The attributes, and the sessionmaker in the context of the message router.
pub record AppState : Type 0 where
  pub settings : Option BetMakerSettings
  pub engine : Option ℕ
  pub sessionmaker : Option ℕ
  pub line_provider_http_client : Option ℕ
  pub event_lookup : Option HttpEventLookup
  pub reconciler_event_lookup : Option HttpEventLookup
  pub reconciliation_task : Option ℕ
  pub context_sessionmaker : Option ℕ

abbrev pub fresh_state : AppState
fresh_state = record {
  settings = none;
  engine = none;
  sessionmaker = none;
  line_provider_http_client = none;
  event_lookup = none;
  reconciler_event_lookup = none;
  reconciliation_task = none;
  context_sessionmaker = none;
}

-- What the start makes: an engine, a sessionmaker, an HTTP client, a task.
pub record Objects : Type 0 where
  pub engine : ℕ
  pub sessionmaker : ℕ
  pub http_client : ℕ
  pub task : ℕ

-- `set_sessionmaker` of api/messaging.py
abbrev pub set_sessionmaker : ℕ → AppState → AppState
set_sessionmaker sm app = record app { context_sessionmaker = some sm }

-- The assignments to `app.state` before the reconciler is started, and the one after.
abbrev pub pinned : BetMakerSettings → Objects → AppState → AppState
pinned s o app = record app {
  settings = some s;
  engine = some o.engine;
  sessionmaker = some o.sessionmaker;
  line_provider_http_client = some o.http_client;
  event_lookup = some (route_lookup s o.http_client);
  reconciler_event_lookup = some (reconciler_lookup s o.http_client);
}

abbrev pub pinned_task : Objects → AppState → AppState
pinned_task o app = record app { reconciliation_task = some o.task }

-- An attribute that is not there is an AttributeError.
abbrev attribute : {A : Type 0} → Option A → Outcome A
attribute none = raised other_error
attribute (some a) = returned a

abbrev pub get_settings : AppState → Outcome BetMakerSettings
get_settings app = attribute app.settings

abbrev pub get_engine : AppState → Outcome ℕ
get_engine app = attribute app.engine

abbrev pub get_sessionmaker : AppState → Outcome ℕ
get_sessionmaker app = attribute app.sessionmaker

-- A unit of work of its own for each request
abbrev pub get_uow : AppState → Outcome (ℕ × PostgresUnitOfWork)
get_uow app = elim (get_sessionmaker app) [
  | returned sm ↦ returned (sm, new_uow)
  | raised x ↦ raised x
]

abbrev pub get_event_lookup : AppState → Outcome HttpEventLookup
get_event_lookup app = attribute app.event_lookup

abbrev pub get_line_provider_http_client : AppState → Outcome ℕ
get_line_provider_http_client app = attribute app.line_provider_http_client

abbrev pub get_reconciler_event_lookup : AppState → Outcome HttpEventLookup
get_reconciler_event_lookup app = attribute app.reconciler_event_lookup

abbrev pub get_reconciliation_task : AppState → Outcome ℕ
get_reconciliation_task app = attribute app.reconciliation_task
