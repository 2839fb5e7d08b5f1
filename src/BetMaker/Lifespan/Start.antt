-- ===== src/BetMaker/Lifespan/Start.antt =====
-- How a start ends, by the first of its calls that raises.
use bsw.Common.{◌≡◌, Option, none, some, List, [], ◌∷◌, arith, if◌then◌else◌}
use bsw.BetMaker.Exceptions.{Exn, Outcome, returned, raised, is_exception}
use bsw.BetMaker.UnitOfWork.{new_uow}
use bsw.BetMaker.Settings.{BetMakerSettings, route_lookup, reconciler_lookup}
use bsw.BetMaker.AppState.{
  AppState, Objects, get_settings, get_engine, get_sessionmaker, get_uow, get_event_lookup,
  get_line_provider_http_client, get_reconciler_event_lookup, get_reconciliation_task,
}
use bsw.BetMaker.Lifespan.{
  Action, create_engine, await_postgres, open_http_client, connect_broker, declare_exchange,
  declare_queue, bind_queue, start_reconciler, dispose_engine, Failures, Progress, startup,
}

-- Every provider finds what the start has made, and both lookups share the one HTTP client.
pub record Provides (s : BetMakerSettings) (o : Objects) (app : AppState) : Type 0 where
  pub settings : get_settings app ≡ returned s
  pub engine : get_engine app ≡ returned o.engine
  pub sessionmaker : get_sessionmaker app ≡ returned o.sessionmaker
  pub uow : get_uow app ≡ returned (o.sessionmaker, new_uow)
  pub http_client : get_line_provider_http_client app ≡ returned o.http_client
  pub event_lookup : get_event_lookup app ≡ returned (route_lookup s o.http_client)
  pub reconciler_event_lookup :
      get_reconciler_event_lookup app ≡ returned (reconciler_lookup s o.http_client)
  pub task : get_reconciliation_task app ≡ returned o.task
  pub handler : app.context_sessionmaker ≡ some o.sessionmaker

-- The calls after PostgreSQL has answered.
abbrev pub later_calls : List Action
later_calls =
    open_http_client ∷ connect_broker ∷ declare_exchange ∷ declare_queue ∷ bind_queue
    ∷ start_reconciler ∷ []

-- The calls up to the first that raises, with its exception.
abbrev pub first_failure : Failures → List Action → List Action × Option Exn
first_failure fails [] = ([], none)
first_failure fails (a ∷ as') =
    let rest = first_failure fails as' in
    elim (fails a) [ some x ↦ (a ∷ [], some x) | none ↦ (a ∷ rest.0, rest.1) ]

-- The ways in which a start can end.
abbrev pub Ends : Failures → BetMakerSettings → Objects → Outcome (Unit {0}) × Progress → Type 0
Ends fails s o (out, g) = elim (fails create_engine) [
  | some x ↦ (out ≡ raised x) × (g.log ≡ create_engine ∷ [])
  | none ↦ elim (fails await_postgres) [
    | some x ↦
        if is_exception x
        then g.log ≡ create_engine ∷ await_postgres ∷ dispose_engine ∷ []
        else (out ≡ raised x) × (g.log ≡ create_engine ∷ await_postgres ∷ [])
    | none ↦ elim (first_failure fails later_calls).1 [
      | some x ↦
          (out ≡ raised x)
          × (g.log ≡ create_engine ∷ await_postgres ∷ (first_failure fails later_calls).0)
      | none ↦
          (out ≡ returned tt)
          × (g.log ≡ create_engine ∷ await_postgres ∷ later_calls)
          × Provides s o g.app
    ]
  ]
]

-- A start raises what the making of the engine raises; or PostgreSQL does not answer, and the engine is
-- disposed of if that is an `Exception`; or it ends with the first later call that raises, with that
-- exception and giving nothing back; or, if none raises, it has made every call in order, and every
-- provider finds its object, both lookups with their own settings over the one HTTP client.
pub startup-Ends :
    (fails : Failures) (s : BetMakerSettings) (o : Objects) → Ends fails s o (startup fails s o)
unfolding startup
startup-Ends fails s o = ground arith
