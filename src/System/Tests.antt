-- ===== src/System/Tests.antt =====
-- A run of both services, and the theorems about it there.
mod Queues
mod Clients
use bsw.Common.{false, ℕ, ◌≡◌, ◌↔◌, inl, refl, true, none, some, [], ◌∷◌, All, any, ◌==◌}
use bsw.Common.Dict.{lookup, insert}
use bsw.Money.{Decimal, two_places}
use bsw.LineProvider.Schemas.{EventState, EventTerminalState, FieldTest, RequestId}
use bsw.LineProvider.Store.{list_active_events}
use bsw.LineProvider.Service.{Broker, confirmed, LineProvider, Publication, RoutingKey}
use bsw.LineProvider.Api.{Request, post_event, put_event, dispatch, initial, serve}
use bsw.LineProvider.Steps.Invariant.{outcome}
use bsw.BetMaker.Exceptions.{returned}
use bsw.BetMaker.Models.{Bet, BetStatus}
use bsw.BetMaker.Database.{World}
use bsw.BetMaker.Database.Rows.{HasUniqueIds}
use bsw.BetMaker.Reference.{reference, fair, fair-IsFair, retrying}
use bsw.BetMaker.Client.{get_event}
use bsw.BetMaker.Settle.Frame.{find_bet, Keeps}
use bsw.BetMaker.PlaceBet.{Env, BetCreate, rejection, post_bet}
use bsw.BetMaker.Reconciler.{run_tick}
use bsw.BetMaker.Consumer.{on_event_finished}
use bsw.System.{System, connected, Sent, request, deliver, bet, Reach, here, next, started}
use bsw.System.Agreement.{Agrees, Reach-Agrees}
use bsw.System.Lookup.{stored_snapshot, get_event-connected, rejection-list_active_events}
use bsw.LineProvider.Lifespan.{Failures, LineProviderSettings, startup, get_store}
use bsw.LineProvider.Store.{InMemoryEventStore}
use bsw.System.Restart.{restarted, run_tick-restarted}

abbrev takes_all : Broker
takes_all calls p = confirmed

abbrev pub any_decimal : FieldTest
any_decimal d = true

abbrev cents : Decimal
cents = record { negative = false; digits = 150; exponent = two_places }

abbrev post_7 : Request
post_7 = record {
  now = 1;
  header = none;
  uuid = 41;
  call = post_event (record { event_id = 7; coefficient = cents; deadline = 100 });
}

abbrev win_7 : Request
win_7 = record {
  now = 2;
  header = none;
  uuid = 42;
  call =
      put_event 7 (record { coefficient = cents; deadline = 100; state = EventState.finished_win });
}

abbrev active_lp : LineProvider
active_lp = serve takes_all any_decimal (post_7 ∷ []) initial

abbrev pub finished_lp : LineProvider
finished_lp = serve takes_all any_decimal (post_7 ∷ win_7 ∷ []) initial

abbrev pub env : Env
env = record { tenacity = retrying; http = connected 3 active_lp; pg = reference; weather = fair }

abbrev stake_7 : BetCreate
stake_7 = record { event_id = 7; amount = cents }

-- The event is created, a bet is placed on it, it finishes, and the message arrives.
abbrev created : System
created = record started {
  line_provider = (dispatch takes_all any_decimal post_7 started.line_provider).2;
}

abbrev placed : System
placed = record created { world = (post_bet env any_decimal 2 10 stake_7 created.world).1 }

abbrev won : System
won = record placed {
  line_provider = (dispatch takes_all any_decimal win_7 placed.line_provider).2;
}

abbrev announcement : Publication
announcement = record {
  message = record {
    schema_version = 1;
    event_id = 7;
    new_state = EventTerminalState.finished_win;
    coefficient = cents;
    occurred_at = 2;
    correlation_id = RequestId.no_request_id;
  };
  routing_key = RoutingKey.event_finished_win;
  persist = true;
  correlation_id = RequestId.no_request_id;
}

abbrev paid : System
paid = record won { world = (on_event_finished env (some announcement.message) won.world).1 }

announced : Sent announcement won.line_provider.published
unfolding dispatch insert lookup
announced = inl refl

run : Reach takes_all any_decimal started paid
run =
    next
      (next (next (next here (request started post_7)) (bet created env any_decimal 2 10 stake_7))
        (request placed win_7))
      (deliver won env announcement announced)

Reach-Agrees_example :
    All (Agrees paid.line_provider) paid.world.table × HasUniqueIds paid.world.table
Reach-Agrees_example = Reach-Agrees takes_all any_decimal run

-- The bet is won.
abbrev pub row : ℕ → Bet
row i = record {
  id = i;
  event_id = 7;
  amount = cents;
  status = BetStatus.pending;
  created_at = 1;
  updated_at = 1;
  settled_at = none;
  settled_via = none;
}

abbrev pub waiting : World
waiting = record { table = row 5 ∷ []; begun = 0; requests = 0 }

pub finished_7 : outcome finished_lp 7 ≡ some EventTerminalState.finished_win
unfolding serve dispatch lookup insert
finished_7 = refl

-- line-provider starts again after the event was won; a late PUT does not find it.
abbrev starts_well : Failures
starts_well a = none

abbrev lp_settings : LineProviderSettings
lp_settings = record { port = 8000 }

starts_again : (startup starts_well lp_settings 1).raised ≡ none
unfolding startup
starts_again = refl

run_tick-restarted_example :
    (store : InMemoryEventStore) × (get_store (startup starts_well lp_settings 1).app ≡ some store)
    × let lp = restarted takes_all any_decimal finished_lp store (win_7 ∷ []) in
      let o = run_tick (record env { http = connected 3 lp }) 4 waiting in
      (o.0 ≡ returned tt)
      × (b' : Bet) × (find_bet 5 o.1.table ≡ some b')
      × Keeps (row 5) b'
      × (b'.status ≡ BetStatus.cancelled)
run_tick-restarted_example =
    run_tick-restarted takes_all any_decimal finished_lp starts_well lp_settings 1 (win_7 ∷ []) env
      3 4 waiting 5 (row 5) starts_again fair-IsFair (refl, tt) refl refl (tt, tt)

get_event-connected_example :
    (get_event retrying (connected 3 active_lp) 2 7 0).0
    ≡ returned (stored_snapshot (lookup 7 active_lp.store))
get_event-connected_example = get_event-connected retrying 3 2 7 0 active_lp

rejection-list_active_events_example :
    (rejection 10 (stored_snapshot (lookup 7 active_lp.store)) ≡ none)
    ↔ (any (λ e. e.event_id == 7) (list_active_events 10 active_lp.store) ≡ true)
rejection-list_active_events_example =
    rejection-list_active_events takes_all any_decimal (post_7 ∷ []) 10 7

-- The bet of the run was placed, and won.
paid_won : (b : Bet) × (paid.world.table ≡ b ∷ []) × (b.status ≡ BetStatus.won)
unfolding post_bet on_event_finished dispatch insert lookup serve
paid_won = (_, refl, refl)
