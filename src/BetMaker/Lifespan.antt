-- ===== src/BetMaker/Lifespan.antt =====
-- src/bet_maker/lifespan.py: what is acquired at the start, in order, and given back at the end, with
-- any of the steps raising. Settings are read, and logging is set up, before.
pub mod Release
pub mod Start
use bsw.Common.{
  ℕ, zero, suc, ◌≡◌, ◌≢◌, refl, Bool, true, false, Option, none, some, List, [], ◌∷◌, ◌++◌, arith,
  if◌then◌else◌, inl, inr, Bool-cases,
}
use bsw.BetMaker.Settings.{BetMakerSettings}
use bsw.BetMaker.AppState.{AppState, Objects, fresh_state, set_sessionmaker, pinned, pinned_task}
use bsw.BetMaker.Exceptions.{Exn, cancelled_error, Outcome, returned, raised, is_exception}

-- The calls that lifespan makes, by what they do.
pub data Action : Type 0 where
  create_engine await_postgres open_http_client connect_broker declare_exchange declare_queue
        bind_queue start_reconciler :
      Action
  cancel_reconciler await_reconciler close_broker close_http_client dispose_engine : Action

-- Which calls raise: the database, the broker and the libraries are not in the repository.
abbrev pub Failures : Type 0
Failures = Action → Option Exn

-- The calls made so far, oldest first, and `app.state`.
pub record Progress : Type 0 where
  pub log : List Action
  pub app : AppState

-- A piece of the lifespan.
abbrev Life : Type 0
Life = Progress → Outcome (Unit {0}) × Progress

abbrev act : Failures → Action → Life
act fails a g =
    (elim (fails a) [ none ↦ returned tt | some x ↦ raised x ], record g { log = g.log ++ a ∷ [] })

-- An assignment.
abbrev pin : (AppState → AppState) → Life
pin f g = (returned tt, record g { app = f g.app })

-- `a; b`
infixl 5 ◌>>◌
abbrev ◌>>◌ : Life → Life → Life
◌>>◌ m k log = let (o, log') = m log in elim o [ returned u ↦ k log' | raised x ↦ (raised x, log') ]

-- `try: m finally: k`: an exception out of `k` takes the place of one out of `m`.
abbrev finally : Life → Life → Life
finally m k log =
    let (o, log') = m log in
    let (o', log'') = k log' in (elim o' [ raised x ↦ raised x | returned u ↦ o ], log'')

-- `except Exception: …; raise`
abbrev on_exception : Life → Life → Life
on_exception m k log =
    let (o, log') = m log in
    elim o [
      | returned u ↦ (returned u, log')
      | raised x ↦
          if is_exception x
          then (let (o', log'') = k log' in
              (elim o' [ raised y ↦ raised y | returned u ↦ raised x ], log''))
          else (raised x, log')
    ]

-- `with suppress(CancelledError): await reconciliation_task`
abbrev suppress_cancelled : Life → Life
suppress_cancelled m log =
    let (o, log') = m log in
    elim o [
      | returned u ↦ (returned u, log')
      | raised x ↦ if is_exception x then (raised x, log') else (returned tt, log')
    ]

-- Up to the `yield`.
unfoldable pub startup : Failures → BetMakerSettings → Objects → Outcome (Unit {0}) × Progress
startup fails settings objects =
    (act fails create_engine
        >> on_exception (act fails await_postgres) (act fails dispose_engine)
        >> act fails open_http_client
        >> act fails connect_broker
        >> act fails declare_exchange
        >> act fails declare_queue
        >> act fails bind_queue
        >> pin (set_sessionmaker objects.sessionmaker)
        >> pin (pinned settings objects)
        >> act fails start_reconciler
        >> pin (pinned_task objects))
      (record { log = []; app = fresh_state })

-- After it.
unfoldable pub shutdown : Failures → AppState → Outcome (Unit {0}) × Progress
shutdown fails app =
    (act fails cancel_reconciler
        >> suppress_cancelled (act fails await_reconciler)
        >> finally (act fails close_broker)
            (finally (act fails close_http_client) (act fails dispose_engine)))
      (record { log = []; app = app })
