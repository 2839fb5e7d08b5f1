-- ===== src/System/Tests/Clients.antt =====
-- A client of bet-maker, from the 200 that shows its bet to the one that shows it WON.
use bsw.Common.{◌≡◌, refl, some, none, false, [], ◌∷◌}
use bsw.LineProvider.Schemas.{EventTerminalState}
use bsw.BetMaker.Exceptions.{returned}
use bsw.BetMaker.Models.{Bet, BetStatus, BetRead, to_bet_read}
use bsw.BetMaker.Database.{World}
use bsw.BetMaker.Settle.Frame.{find_bet}
use bsw.BetMaker.Reference.{fair-IsFair}
use bsw.BetMaker.PlaceBet.{ok_200}
use bsw.BetMaker.Consumer.Context.{LogContext}
use bsw.BetMaker.App.{to_bet, get_bet, Request, Site, dispatch, request, delivery, live}
use bsw.BetMaker.App.Promises.{StandsBy}
use bsw.System.Outcome.{ticked, dispatch-Settled}
use bsw.System.Tests.{any_decimal, env, finished_lp, finished_7, waiting, row}

abbrev site : Site
site = record {
  env = env;
  field = any_decimal;
  attempts = 2;
  surroundings = record {
    connection = none;
    broker_ping = returned false;
    subscribers = 1;
    task_done = false;
  };
}

abbrev bare_context : LogContext
bare_context = record {
  request_id = none;
  message_id = none;
  correlation_id = none;
  event_id = none;
}

abbrev show : Request
show = record { now = 5; header = none; uuid = 60; call = get_bet 5 }

-- The message of the event comes as a payload that is none.
abbrev before : World
before =
    live (request site show bare_context ∷ delivery env none ∷ [])
      (dispatch site show bare_context waiting).world

abbrev shown : BetRead
shown = to_bet_read (row 5)

dispatch-Settled_example :
    (b b' : Bet) × (find_bet 5 before.table ≡ some b)
    × StandsBy shown (to_bet_read b)
    × ((dispatch site show bare_context (ticked env finished_lp 3 4 fair-IsFair before)).answer
        ≡ to_bet (ok_200 (to_bet_read b')))
    × StandsBy (to_bet_read b) (to_bet_read b')
    × (b.status ≡ BetStatus.pending → b'.status ≡ BetStatus.won)
unfolding dispatch
dispatch-Settled_example =
    dispatch-Settled env finished_lp 3 4 fair-IsFair site show bare_context waiting shown
      EventTerminalState.finished_win (request site show bare_context ∷ delivery env none ∷ []) site
      show bare_context (refl, tt) refl finished_7 refl
      (fair-IsFair (ticked env finished_lp 3 4 fair-IsFair before).begun)
