-- ===== src/BetMaker/App/Tests.antt =====
-- The service at concrete inputs: a bet is read, its event is won, and the bet is read again.
use bsw.Common.{◌≡◌, ◌⊎◌, refl, true, false, none, some, List, [], ◌∷◌}
use bsw.Money.{two_places}
use bsw.LineProvider.Schemas.{FieldTest, EventTerminalState, EventFinishedMessage, RequestId}
use bsw.BetMaker.Exceptions.{returned}
use bsw.BetMaker.Models.{BetStatus, BetRead, to_bet_read}
use bsw.BetMaker.PlaceBet.{ok_200, internal_error_500}
use bsw.BetMaker.Consumer.Context.{LogContext}
use bsw.BetMaker.App.{
  to_bet, post_bet, get_bet, Request, Site, dispatch, Happening, request, delivery, tick, live,
}
use bsw.BetMaker.App.Promises.{StandsBy, dispatch-StandsBy}
use bsw.BetMaker.App.Effects.{Effect, dispatch-Effect}
use bsw.BetMaker.Tests.{bet, world, table_unique}
use bsw.BetMaker.Tests.Services.{env}

abbrev any_amount : FieldTest
any_amount d = true

abbrev site : Site
site = record {
  env = env;
  field = any_amount;
  attempts = 2;
  surroundings = record {
    connection = none;
    broker_ping = returned true;
    subscribers = 1;
    task_done = false;
  };
}

abbrev nothing_bound : LogContext
nothing_bound = record {
  request_id = none;
  message_id = none;
  correlation_id = none;
  event_id = none;
}

abbrev reading : Request
reading = record { now = 20; header = some 5; uuid = 6; call = get_bet 1 }

abbrev placing : Request
placing = record {
  now = 20;
  header = none;
  uuid = 7;
  call = post_bet (record {
    event_id = 9;
    amount = record { negative = false; digits = 1000; exponent = two_places };
  });
}

abbrev won : EventFinishedMessage
won = record {
  schema_version = 1;
  event_id = 7;
  new_state = EventTerminalState.finished_win;
  coefficient = record { negative = false; digits = 150; exponent = two_places };
  occurred_at = 12;
  correlation_id = RequestId.no_request_id;
}

abbrev happenings : List Happening
happenings =
    request site placing nothing_bound
    ∷ delivery env (some won)
    ∷ delivery env none
    ∷ tick env 2
    ∷ []

abbrev shown : BetRead
shown = to_bet_read (bet 1 7 BetStatus.pending)

-- The first reading.
first : (dispatch site reading nothing_bound world).answer ≡ to_bet (ok_200 shown)
unfolding dispatch
first = refl

-- The second.
second :
    (dispatch site reading nothing_bound
      (live happenings (dispatch site reading nothing_bound world).world)).answer
    ≡ to_bet (ok_200 (record shown { status = BetStatus.won }))
unfolding dispatch live
second = refl

dispatch-StandsBy_example :
    let later =
      (dispatch site reading nothing_bound
        (live happenings (dispatch site reading nothing_bound world).world)).answer in
    (later ≡ to_bet internal_error_500)
    ⊎ ((q : BetRead) × (later ≡ to_bet (ok_200 q)) × StandsBy shown q)
unfolding dispatch
dispatch-StandsBy_example =
    dispatch-StandsBy site reading nothing_bound world table_unique shown happenings site reading
      nothing_bound refl refl

dispatch-Effect_example :
    let o = dispatch site placing nothing_bound world in Effect o.answer world.table o.world.table
dispatch-Effect_example = dispatch-Effect site (λ n p x e. cc) placing nothing_bound world
