-- ===== src/System/Settlement.antt =====
-- What a tick makes of the bets when it reaches line-provider.
use bsw.Common.{ℕ, ◌≡◌, ◌≢◌, refl, ap, ◌∙◌, true, arith, Option, none, some}
use bsw.Common.Dict.{lookup}
use bsw.LineProvider.Schemas.{EventTerminalState, Event}
use bsw.LineProvider.Service.{LineProvider}
use bsw.LineProvider.Steps.Invariant.{outcome, outcome_of}
use bsw.BetMaker.Exceptions.{returned, cancelled_error}
use bsw.BetMaker.Models.{Bet, BetStatus, is_pending}
use bsw.BetMaker.Database.{World}
use bsw.BetMaker.Database.Rows.{HasUniqueIds}
use bsw.BetMaker.Settle.{terminal_to_status}
use bsw.BetMaker.Settle.Flip.{IsFair}
use bsw.BetMaker.Settle.Frame.{find_bet, Keeps}
use bsw.BetMaker.PlaceBet.{Env}
use bsw.BetMaker.Reconciler.{run_tick}
use bsw.BetMaker.Reconciler.Dispatch.{verdict}
use bsw.BetMaker.Reconciler.Tick.{run_tick-Resolved}
use bsw.BetMaker.Client.{client_raises}
use bsw.LineProvider.Api.{Response, ok_200, not_found_404, get_event_route}
use bsw.System.{connected, event_answer}
use bsw.System.Lookup.{stored_snapshot, route-read}

verdict_finished :
    (o : Option Event) (t : EventTerminalState)
    → outcome_of o ≡ some t
    → verdict (stored_snapshot o) ≡ terminal_to_status t
verdict_finished o t h = ground arith

-- A network that loses nothing cancels nothing.
response-uncancelled : (r : Response) → event_answer r ≢ client_raises cancelled_error
response-uncancelled (ok_200 e) h = cc
response-uncancelled not_found_404 h = cc
response-uncancelled _ h = cc

module _ (env : Env) (lp : LineProvider) (clock attempts : ℕ)
    (fair : (n : ℕ) → IsFair (env.weather n)) (w : World) (k : ℕ) (b : Bet)
    (unique : HasUniqueIds w.table) (there : find_bet k w.table ≡ some b)
    (open_still : is_pending b ≡ true) where
  -- The reconciler, over a network that loses nothing.
  abbrev pub online : Env
  online = record env { http = connected clock lp }

  -- With no failure and no lock of the database, over a network that loses nothing, a tick returns and
  -- a PENDING bet on an event that has finished ends WON or LOST as the event finished.
  pub run_tick_finished :
      (t : EventTerminalState)
      → outcome lp b.event_id ≡ some t
      → let o = run_tick online attempts w in
        (o.0 ≡ returned tt)
        × (b' : Bet) × (find_bet k o.1.table ≡ some b')
        × Keeps b b'
        × (b'.status ≡ terminal_to_status t)
  run_tick_finished t h =
      let (returns, b', found, kept, told) =
        run_tick-Resolved online attempts b.event_id (stored_snapshot (lookup b.event_id lp.store))
          fair (λ n. route-read b.event_id lp)
          (λ n j. response-uncancelled (get_event_route j lp).0) w k b unique there refl
          open_still in
      (returns, b', found, kept, told ∙ verdict_finished (lookup b.event_id lp.store) t h)

  -- In the same circumstances, a PENDING bet on an event that line-provider does not have is CANCELLED.
  pub run_tick_unknown :
      lookup b.event_id lp.store ≡ none
      → let o = run_tick online attempts w in
        (o.0 ≡ returned tt)
        × (b' : Bet) × (find_bet k o.1.table ≡ some b')
        × Keeps b b'
        × (b'.status ≡ BetStatus.cancelled)
  run_tick_unknown h =
      let (returns, b', found, kept, told) =
        run_tick-Resolved online attempts b.event_id (stored_snapshot (lookup b.event_id lp.store))
          fair (λ n. route-read b.event_id lp)
          (λ n j. response-uncancelled (get_event_route j lp).0) w k b unique there refl
          open_still in
      (returns, b', found, kept, told ∙ ap (λ o. verdict (stored_snapshot o)) h)
