-- ===== src/LineProvider/Tests.antt =====
-- A run of the service, and the theorems about it at that run.
use bsw.Common.{◌≡◌, ◌≢◌, ◌≤◌, refl, true, false, none, some, List, [], ◌∷◌, All}
use bsw.Common.Dict.{lookup, insert}
use bsw.Money.{Decimal, two_places}
use bsw.LineProvider.Schemas.{
  EventState, EventTerminalState, EventRead, EventCreate, FieldTest, RequestId,
}
use bsw.LineProvider.Service.{
  Broker, Publication, confirmed, refused, unconfirmed, LineProvider, SetEventState, publish_failed,
  raised, set_event_state,
}
use bsw.LineProvider.Api.{
  Request, post_event, put_event, created_201, ok_200, conflict_409, post_event_route,
  get_event_route, dispatch, initial, serve,
}
use bsw.LineProvider.Steps.{Step, dispatch-Step}
use bsw.LineProvider.Steps.Invariant.{outcome, messages, IsTrue, serve-IsValid, initial-IsValid}
use bsw.LineProvider.Steps.Finality.{
  serve-outcome, serve-messages, serve-messages_fixed, serve-messages_reliable,
  get_event_route-post,
}
use bsw.LineProvider.Steps.Raised.{RaisedOnlyInPublish, set_event_state_raised}

abbrev takes_all : Broker
takes_all calls p = confirmed

abbrev refuses_all : Broker
refuses_all calls p = refused

abbrev any_decimal : FieldTest
any_decimal d = true

abbrev coefficient : Decimal
coefficient = record { negative = false; digits = 150; exponent = two_places }

abbrev body : EventCreate
body = record { event_id = 7; coefficient = coefficient; deadline = 100 }

abbrev post : Request
post = record { now = 1; header = none; uuid = 41; call = post_event body }

abbrev put : EventState → Request
put s = record {
  now = 2;
  header = some 5;
  uuid = 42;
  call = put_event 7 (record { coefficient = coefficient; deadline = 100; state = s });
}

-- Create, finish as a win, then try to make it a loss and to reopen it.
abbrev script : List Request
script = post ∷ put EventState.finished_win ∷ put EventState.finished_lose ∷ put EventState.new ∷ []

abbrev finished : Broker → LineProvider
finished broker = serve broker any_decimal (post ∷ put EventState.finished_win ∷ []) initial

finished-outcome : outcome (finished takes_all) 7 ≡ some EventTerminalState.finished_win
unfolding serve dispatch lookup insert
finished-outcome = refl

lost-outcome : outcome (finished refuses_all) 7 ≡ some EventTerminalState.finished_win
unfolding serve dispatch lookup insert
lost-outcome = refl

-- The broker refused the message, and there is none.
lost-messages : messages (finished refuses_all) 7 ≡ 0
unfolding serve dispatch lookup insert
lost-messages = refl

script-outcome :
    outcome (serve takes_all any_decimal script initial) 7 ≡ some EventTerminalState.finished_win
unfolding serve dispatch lookup insert
script-outcome = refl

dispatch-Step_example : Step takes_all initial (dispatch takes_all any_decimal post initial).2
dispatch-Step_example = dispatch-Step takes_all any_decimal post initial

serve-outcome_example :
    outcome (serve takes_all any_decimal script (finished takes_all)) 7
    ≡ some EventTerminalState.finished_win
serve-outcome_example =
    serve-outcome takes_all any_decimal script (finished takes_all) 7 finished-outcome

serve-messages_example :
    let lp = serve takes_all any_decimal script initial in
    (messages lp 7 ≤ 1) × (outcome lp 7 ≡ none → messages lp 7 ≡ 0) × All (IsTrue lp) lp.published
serve-messages_example = serve-messages takes_all any_decimal script 7

serve-messages_fixed_example :
    messages (serve refuses_all any_decimal script (finished refuses_all)) 7
    ≡ messages (finished refuses_all) 7
serve-messages_fixed_example =
    serve-messages_fixed refuses_all any_decimal script 7
      (serve-IsValid refuses_all any_decimal (post ∷ put EventState.finished_win ∷ [])
        initial-IsValid)
      lost-outcome

takes_all-reliable : (calls : List Publication) (p : Publication) → takes_all calls p ≢ refused
takes_all-reliable calls p e = cc

serve-messages_reliable_example : messages (serve takes_all any_decimal script initial) 7 ≡ 1
serve-messages_reliable_example =
    serve-messages_reliable takes_all any_decimal takes_all-reliable script 7
      EventTerminalState.finished_win script-outcome

abbrev win : SetEventState
win = record {
  event_id = 7;
  coefficient = coefficient;
  deadline = 100;
  new_state = EventState.finished_win;
  correlation_id = RequestId.no_request_id;
}

abbrev opened : LineProvider
opened = record initial {
  store =
      (
        7,
        record { event_id = 7; coefficient = coefficient; deadline = 100; state = EventState.new },
      )
      ∷ [];
}

-- RabbitMQ takes the message, and its confirm is lost.
abbrev loses_confirms : Broker
loses_confirms calls p = unconfirmed

win_raised : (set_event_state loses_confirms 3 win opened).0 ≡ raised publish_failed
unfolding set_event_state lookup
win_raised = refl

win_announced : messages (set_event_state loses_confirms 3 win opened).1 7 ≡ 1
unfolding set_event_state lookup
win_announced = refl

set_event_state_raised_example :
    RaisedOnlyInPublish loses_confirms win opened (set_event_state loses_confirms 3 win opened)
set_event_state_raised_example = set_event_state_raised loses_confirms 3 win opened

abbrev read : EventRead
read = record { event_id = 7; coefficient = coefficient; deadline = 100; state = EventState.new }

posted : (post_event_route any_decimal 1 body initial).0 ≡ created_201 read
unfolding post_event_route lookup
posted = refl

get_event_route-post_example :
    let lp' = (post_event_route any_decimal 1 body initial).1 in
    (get_event_route 7 lp' ≡ (ok_200 read, lp'))
    × (post_event_route any_decimal 1 body lp' ≡ (conflict_409 7, lp'))
get_event_route-post_example = get_event_route-post any_decimal 1 body initial read posted
