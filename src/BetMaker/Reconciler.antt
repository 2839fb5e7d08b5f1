-- ===== src/BetMaker/Reconciler.antt =====
-- src/bet_maker/jobs/reconciler.py, with the selector get_pending_event_ids.py.
pub mod Dispatch
pub mod Resolves
pub mod Effect
pub mod Tick
use bsw.Common.{ℕ, ◌+◌, Bool, true, false, Option, none, some, List, [], ◌∷◌}
use bsw.LineProvider.Schemas.{EventState, EventTerminalState}
use bsw.BetMaker.Exceptions.{Exn, Outcome, returned, raised, is_exception}
use bsw.BetMaker.Models.{Bet, Via, is_pending}
use bsw.BetMaker.Database.{Postgres, Weather, World, Point, at_begin, at_select}
use bsw.BetMaker.Client.{EventSnapshot, get_event}
use bsw.BetMaker.Settle.{settle_bets_for_event, cancel_bets_for_event}
use bsw.BetMaker.PlaceBet.{Env}

-- The result of an interactor, dropped.
abbrev pub done : {A : Type 0} → Outcome A × World → Outcome (Unit {0}) × World
done (returned r, w) = (returned tt, w)
done (raised x, w) = (raised x, w)

-- The dispatch on what line-provider reports.
unfoldable pub dispatch_snapshot :
    Env → ℕ → Option EventSnapshot → World → Outcome (Unit {0}) × World
unfolding settle_bets_for_event cancel_bets_for_event
dispatch_snapshot env event_id none w = done (cancel_bets_for_event env.pg env.weather event_id w)
dispatch_snapshot env event_id (some snapshot) w = elim snapshot.state [
  | EventState.finished_win ↦ done (
      settle_bets_for_event env.pg env.weather event_id EventTerminalState.finished_win
        Via.reconciler w)
  | EventState.finished_lose ↦ done (
      settle_bets_for_event env.pg env.weather event_id EventTerminalState.finished_lose
        Via.reconciler w)
  | EventState.new ↦ (returned tt, w)
]

-- `_reconcile_event`; the lookup has the reconciler's number of attempts.
unfoldable pub reconcile_event : Env → ℕ → ℕ → World → Outcome (Unit {0}) × World
unfolding dispatch_snapshot get_event
reconcile_event env attempts event_id w =
    let (found, requests) = get_event env.tenacity env.http attempts event_id w.requests in
    let w' : World = record w { requests = requests } in
    elim found [
      | raised x ↦ (raised x, w')
      | returned snapshot ↦ dispatch_snapshot env event_id snapshot w'
    ]

-- `except Exception: continue`
abbrev pub continues : Outcome (Unit {0}) → Bool
continues (returned u) = true
continues (raised x) = is_exception x

-- The loop over the event ids, which only a CancelledError leaves.
unfoldable pub reconcile_all : Env → ℕ → List ℕ → World → Outcome (Unit {0}) × World
unfolding reconcile_event
reconcile_all env attempts [] w = (returned tt, w)
reconcile_all env attempts (i ∷ is) w =
    let now_done = reconcile_event env attempts i w in
    let rest = reconcile_all env attempts is now_done.1 in
    elim (continues now_done.0) [ true ↦ rest | false ↦ now_done ]

-- selectors/get_pending_event_ids.py, in a session of its own.
unfoldable pub get_pending_event_ids : Postgres → (ℕ → Weather) → World → Outcome (List ℕ) × World
get_pending_event_ids pg weather w =
    let e = weather w.begun in
    let w' : World = record w { begun = w.begun + 1 } in
    elim (e.fails at_begin) [
      | some x ↦ (raised x, w')
      | none ↦ elim (e.fails at_select) [
        | some x ↦ (raised x, w')
        | none ↦ (returned (pg.select_distinct_event_id is_pending w.table), w')
      ]
    ]

-- `_run_tick`
unfoldable pub run_tick : Env → ℕ → World → Outcome (Unit {0}) × World
unfolding reconcile_all get_pending_event_ids
run_tick env attempts w =
    let (ids, w') = get_pending_event_ids env.pg env.weather w in
    elim ids [
      | raised x ↦ (raised x, w')
      | returned event_ids ↦ reconcile_all env attempts event_ids w'
    ]

-- `reconciliation_loop` for a number of rounds: an `Exception` out of a tick is logged and the loop goes
-- on; a CancelledError, out of a tick or of the sleep before it, ends it. `sleeps n` says that the
-- sleep with n rounds to follow is not cancelled.
unfoldable pub reconciliation_loop : Env → ℕ → (ℕ → Bool) → ℕ → World → Outcome (Unit {0}) × World
unfolding run_tick
reconciliation_loop env attempts sleeps ℕ.zero w = (returned tt, w)
reconciliation_loop env attempts sleeps (ℕ.suc rounds) w =
    let tick = run_tick env attempts w in
    let rest = reconciliation_loop env attempts sleeps rounds tick.1 in
    elim (sleeps rounds) [
      | false ↦ (raised Exn.cancelled_error, w)
      | true ↦ elim (continues tick.0) [ true ↦ rest | false ↦ tick ]
    ]
