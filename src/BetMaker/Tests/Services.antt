-- ===== src/BetMaker/Tests/Services.antt =====
-- Runs of place_bet, of the reconciler and of the consumer, with the theorems about them there.
use bsw.Common.{
  List, ◌∷◌, map, true, ℕ, ◌≡◌, ◌≢◌, refl, true, false, some, if◌then◌else◌, ◌==◌, arith,
}
use bsw.Money.{Decimal, two_places}
use bsw.LineProvider.Schemas.{
  FieldTest, EventState, EventTerminalState, EventFinishedMessage, RequestId,
}
use bsw.BetMaker.Exceptions.{
  cancelled_error, transport_error, timeout_error, is_transient, is_retryable, returned,
}
use bsw.BetMaker.Models.{BetRead, Bet, BetStatus, to_bet_read}
use bsw.BetMaker.Database.{Descends}
use bsw.BetMaker.Database.Rows.{HasUniqueIds}
use bsw.BetMaker.Reference.{reference, fair, fair-IsFair, stumbling, retrying}
use bsw.BetMaker.Client.{
  EventSnapshot, HttpResult, parsed, malformed, response, transport_failure, client_raises,
  LineProviderHttp, read_event, get_event,
}
use bsw.BetMaker.Client.Answers.{Answers, Recovers, get_event-Answers, get_event-Recovers}
use bsw.BetMaker.Settle.Frame.{find_bet, Keeps, Evolves}
use bsw.BetMaker.PlaceBet.{Env, place_bet, BetCreate, post_bet, created_201}
use bsw.BetMaker.BetRoutes.{bets_200, get_bets}
use bsw.BetMaker.BetRoutes.Listing.{get_bets-post}
use mathlib.Core.List.{Perm}
use bsw.BetMaker.PlaceBet.Acceptance.{Places, place_bet-Places}
use bsw.BetMaker.Reconciler.{run_tick, reconciliation_loop}
use bsw.BetMaker.Reconciler.Tick.{run_tick-Resolved, reconciliation_loop-Resolved}
use bsw.BetMaker.Consumer.{acked, on_event_finished}
use bsw.BetMaker.Consumer.Delivery.{
  Delivers, on_event_finished-Delivers, on_event_finished_again, on_event_finished_recovers,
}
use bsw.BetMaker.Tests.{bet, table, world, table_unique}

abbrev snapshot : ℕ → EventState → EventSnapshot
snapshot i state = record { event_id = i; deadline = 50; state = state }

-- Event 7 was won, event 8 never answers, event 9 is NEW but its first request fails; no other exists.
abbrev answers : ℕ → ℕ → HttpResult EventSnapshot
answers n i =
    if i == 7
    then response 200 (parsed (snapshot 7 EventState.finished_win))
    else if i == 8
    then transport_failure
    else if i == 9
    then (if n == 0 then transport_failure else response 200 (parsed (snapshot 9 EventState.new)))
    else response 404 malformed

abbrev pub http : LineProviderHttp
http = record { event = answers; events = λ n. transport_failure }

abbrev pub env : Env
env = record { tenacity = retrying; http = http; pg = reference; weather = fair }

abbrev stumbling_env : Env
stumbling_env = record env { weather = stumbling }

abbrev amount : Decimal
amount = record { negative = false; digits = 1000; exponent = two_places }

abbrev message : ℕ → EventTerminalState → EventFinishedMessage
message i state = record {
  schema_version = 1;
  event_id = i;
  new_state = state;
  coefficient = amount;
  occurred_at = 9;
  correlation_id = RequestId.no_request_id;
}

abbrev won_7 : EventFinishedMessage
won_7 = message 7 EventTerminalState.finished_win

get_event-Answers_example : Answers retrying http 9 0 (get_event retrying http 2 9 0)
get_event-Answers_example = get_event-Answers retrying http 9 0 2

nine-Recovers : Recovers retrying http 9 0 1 0 (some (snapshot 9 EventState.new))
unfolding read_event is_retryable
nine-Recovers = ((transport_error, refl, refl), refl)

get_event-Recovers_example :
    (get_event retrying http 2 9 0).0 ≡ returned (some (snapshot 9 EventState.new))
get_event-Recovers_example =
    get_event-Recovers retrying http 9 0 2 1 (some (snapshot 9 EventState.new)) (omega arith)
      nine-Recovers

place_bet-Places_example :
    Places env 10 9 amount world
      (get_event retrying http 2 9 0).0
      (place_bet env 2 10 9 amount world)
place_bet-Places_example = place_bet-Places env 2 10 9 amount world

seven_steady :
    (n : ℕ) → read_event (answers n 7) ≡ returned (some (snapshot 7 EventState.finished_win))
unfolding read_event
seven_steady n = refl

uncancelled : (n j : ℕ) → answers n j ≢ client_raises cancelled_error
uncancelled n j h = ground arith

run_tick-Resolved_example :
    let o = run_tick env 2 world in
    (o.0 ≡ returned tt)
    × (b' : Bet) × (find_bet 3 o.1.table ≡ some b')
    × Keeps (bet 3 7 BetStatus.pending) b'
    × (b'.status ≡ BetStatus.won)
run_tick-Resolved_example =
    run_tick-Resolved env 2 7 (some (snapshot 7 EventState.finished_win)) fair-IsFair seven_steady
      uncancelled world 3 (bet 3 7 BetStatus.pending) table_unique refl refl refl

stumbling_free : (n i : ℕ) → (stumbling n).locked i ≡ false
stumbling_free n i = ground arith

on_event_finished-Delivers_example :
    let o = on_event_finished stumbling_env (some won_7) world in
    Delivers stumbling_env (some won_7) world o × HasUniqueIds o.1.table × Evolves table o.1.table
on_event_finished-Delivers_example =
    on_event_finished-Delivers stumbling_env stumbling_free (some won_7) world table_unique

timeout_transient : is_transient timeout_error ≡ true
unfolding is_transient
timeout_transient = refl

seven_acked : (on_event_finished stumbling_env (some won_7) world).0 ≡ acked
unfolding on_event_finished
seven_acked = refl

on_event_finished_recovers_example : (on_event_finished stumbling_env (some won_7) world).0 ≡ acked
on_event_finished_recovers_example =
    on_event_finished_recovers stumbling_env won_7 1 world refl (omega arith)
      ((timeout_error, refl, timeout_transient), fair-IsFair 1)

on_event_finished_again_example :
    let w' = (on_event_finished stumbling_env (some won_7) world).1 in
    (on_event_finished stumbling_env (some (message 7 EventTerminalState.finished_lose)) w').1.table
    ≡ w'.table
on_event_finished_again_example =
    on_event_finished_again stumbling_env stumbling_free won_7
      (message 7 EventTerminalState.finished_lose) world table_unique seven_acked refl

-- Two rounds of the loop.
reconciliation_loop-Resolved_example :
    let o = reconciliation_loop env 2 (λ n. true) 2 world in
    (o.0 ≡ returned tt)
    × (b' : Bet) × (find_bet 3 o.1.table ≡ some b')
    × Keeps (bet 3 7 BetStatus.pending) b'
    × (b'.status ≡ BetStatus.won)
reconciliation_loop-Resolved_example =
    reconciliation_loop-Resolved env 2 7 (some (snapshot 7 EventState.finished_win)) fair-IsFair
      seven_steady uncancelled (λ n. true) (λ n. refl) 2 world 3 (bet 3 7 BetStatus.pending)
      (omega arith) table_unique refl refl refl

abbrev any_decimal : FieldTest
any_decimal d = true

abbrev body : BetCreate
body = record { event_id = 9; amount = amount }

-- The bet that the first fair transaction stores.
abbrev read : BetRead
read = record {
  id = 100;
  event_id = 9;
  amount = amount;
  status = BetStatus.pending;
  created_at = 10;
}

nine_created : (post_bet env any_decimal 2 10 body world).0 ≡ created_201 read
unfolding post_bet
nine_created = refl

get_bets-post_example :
    (rs : List BetRead) × ((get_bets env (post_bet env any_decimal 2 10 body world).1).0
      ≡ bets_200 rs)
    × Perm rs (read ∷ map to_bet_read table)
    × Descends (map (λ (q : BetRead). q.created_at) rs)
get_bets-post_example =
    get_bets-post env any_decimal 2 10 body read world nine_created
      (fair-IsFair (post_bet env any_decimal 2 10 body world).1.begun)
