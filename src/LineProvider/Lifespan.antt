-- ===== src/LineProvider/Lifespan.antt =====
-- src/line_provider/lifespan.py with settings/config.py, and the providers of facades/deps.py: what a
-- start pins on `app.state`, and when the connection to RabbitMQ is closed. A broker's client and its
-- exceptions are numbers; names, hosts and addresses among the settings are left out.
use bsw.Common.{ℕ, ◌&&◌, Option, none, some, List, [], ◌∷◌, ◌++◌, leb, if◌then◌else◌}
use bsw.LineProvider.Store.{InMemoryEventStore}

pub record LineProviderSettings : Type 0 where
  pub port : ℕ

abbrev with_default : Option ℕ → LineProviderSettings
with_default none = record { port = 8000 }
with_default (some n) = record { port = n }

-- `LineProviderSettings()`, given LINE_PROVIDER_PORT; `none` is a ValidationError.
unfoldable pub read_settings : Option ℕ → Option LineProviderSettings
read_settings variable =
    let s = with_default variable in if leb 1 s.port && leb s.port 65535 then some s else none

-- The attributes of `app.state`.
pub record AppState : Type 0 where
  pub settings : Option LineProviderSettings
  pub event_store : Option InMemoryEventStore
  pub event_bus : Option ℕ

abbrev pub fresh_state : AppState
fresh_state = record { settings = none; event_store = none; event_bus = none }

pub data Action : Type 0 where
  connect declare_exchange close : Action

-- Which calls of the broker's client raise.
abbrev pub Failures : Type 0
Failures = Action → Option ℕ

-- The calls so far, oldest first, `app.state`, and the exception that is on its way.
pub record Progress : Type 0 where
  pub log : List Action
  pub app : AppState
  pub raised : Option ℕ

-- The three assignments.
abbrev pub pinned : LineProviderSettings → ℕ → AppState → AppState
pinned s broker app = record app {
  settings = some s;
  event_store = some [];
  event_bus = some broker;
}

-- Up to the `yield`; without the settings there is no start.
unfoldable pub startup : Failures → LineProviderSettings → ℕ → Progress
startup fails s broker = elim (fails connect) [
  | some x ↦ record { log = connect ∷ []; app = fresh_state; raised = some x }
  | none ↦ elim (fails declare_exchange) [
    | some x ↦ record { log = connect ∷ declare_exchange ∷ []; app = fresh_state; raised = some x }
    | none ↦ record {
      log = connect ∷ declare_exchange ∷ [];
      app = pinned s broker fresh_state;
      raised = none;
    }
  ]
]

-- What is done between the `yield` and the end: it may raise there.
abbrev pub Serving : Type 0
Serving = AppState → Option ℕ × AppState

-- `finally: await broker.close()`: its exception takes the place of the one before.
abbrev pub closed : Failures → Progress → Progress
closed fails p = record p {
  log = p.log ++ close ∷ [];
  raised = elim (fails close) [ some y ↦ some y | none ↦ p.raised ];
}

-- `lifespan` from its start to its end.
unfoldable pub lifespan : Failures → LineProviderSettings → ℕ → Serving → Progress
unfolding startup
lifespan fails s broker serving =
    let p = startup fails s broker in
    elim p.raised [
      | some x ↦ p
      | none ↦
          let (raised, app) = serving p.app in
          closed fails (record p { app = app; raised = raised })
    ]

-- An attribute that is not there is an AttributeError.
abbrev pub get_store : AppState → Option InMemoryEventStore
get_store app = app.event_store

abbrev pub get_event_bus : AppState → Option ℕ
get_event_bus app = app.event_bus
