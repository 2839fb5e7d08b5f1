-- ===== src/BetMaker/App.antt =====
-- src/bet_maker/app.py and middleware.py: the routes that the service includes, behind the middleware,
-- and the life of the service as a sequence of requests, deliveries and ticks.
pub mod Frame
pub mod Shown
pub mod Promises
pub mod Effects
mod Tests
use bsw.Common.{ℕ, Bool, true, false, Option, none, some, List, [], ◌∷◌, if◌then◌else◌}
use bsw.LineProvider.Schemas.{FieldTest, RequestId, from_header, fresh}
use bsw.BetMaker.Exceptions.{Outcome, returned, raised}
use bsw.BetMaker.Database.{World}
use bsw.BetMaker.PlaceBet.{Env, BetCreate, Response, internal_error_500, post_bet as post_bet_route}
use bsw.BetMaker.BetRoutes.{
  BetsResponse, bets_500, EventsResponse, internal_500, get_bet as get_bet_route,
  get_bets as get_bets_route, get_events as get_events_route,
}
use bsw.BetMaker.Health.{Surroundings, HealthResponse, health as health_route}
use bsw.BetMaker.Consumer.{Payload, on_event_finished}
use bsw.BetMaker.Consumer.Context.{LogContext, clear_contextvars}
use bsw.BetMaker.Reconciler.{run_tick}

pub data Call : Type 0 where
  post_bet : BetCreate → Call
  get_bet : ℕ → Call
  get_bets get_events health : Call

-- A request: when it is handled, its X-Request-ID header, and the uuid that the middleware draws.
pub record Request : Type 0 where
  pub now : ℕ
  pub header : Option ℕ
  pub uuid : ℕ
  pub call : Call

-- What a request meets: the services around, pydantic's test of an amount, how often a lookup of the
-- routes is repeated, and what GET /health asks.
pub record Site : Type 1 where
  pub env : Env
  pub field : FieldTest
  pub attempts : ℕ
  pub surroundings : Surroundings

pub data Answer : Type 0 where
  to_bet : Response → Answer
  to_bets : BetsResponse → Answer
  to_events : EventsResponse → Answer
  to_health : Outcome HealthResponse → Answer

-- The routers that `build_app` includes.
unfoldable pub route : Site → Request → Call → World → Answer × World
unfolding post_bet_route get_bet_route get_bets_route get_events_route health_route
route site r (post_bet body) w =
    let (o, w') = post_bet_route site.env site.field site.attempts r.now body w in (to_bet o, w')
route site r (get_bet bet_id) w = let (o, w') = get_bet_route site.env bet_id w in (to_bet o, w')
route site r get_bets w = let (o, w') = get_bets_route site.env w in (to_bets o, w')
route site r get_events w = let (o, w') = get_events_route site.env w in (to_events o, w')
route site r health w = (to_health (health_route site.surroundings), w)

-- An exception out of a route passes the middleware, too, and is answered outside of it.
abbrev pub is_unhandled : Answer → Bool
is_unhandled (to_bet internal_error_500) = true
is_unhandled (to_bets bets_500) = true
is_unhandled (to_events internal_500) = true
is_unhandled (to_health (raised x)) = true
is_unhandled _ = false

-- `request.headers.get("X-Request-ID", uuid4().hex)`
abbrev pub request_id : Request → RequestId
request_id r = elim r.header [ none ↦ fresh r.uuid | some h ↦ from_header h ]

-- The answer with its X-Request-ID header, what the logs of the route carry, what is bound after it, and
-- the world.
pub record Served : Type 0 where
  pub answer : Answer
  pub header : Option RequestId
  pub during : LogContext
  pub after : LogContext
  pub world : World

-- `RequestContextMiddleware.dispatch`
unfoldable pub dispatch : Site → Request → LogContext → World → Served
unfolding route
dispatch site r c w =
    let cleared = clear_contextvars c in
    let bound : LogContext = record cleared { request_id = some (request_id r) } in
    let (answer, w') = route site r r.call w in
    record {
      answer = answer;
      header = if is_unhandled answer then none else some (request_id r);
      during = bound;
      after = clear_contextvars bound;
      world = w';
    }

-- What reaches the service; each time it may meet another database, other locks and other failures.
pub data Happening : Type 1 where
  request : Site → Request → LogContext → Happening
  delivery : Env → Payload → Happening
  tick : Env → ℕ → Happening

abbrev pub happen : Happening → World → World
happen (request site r c) w = (dispatch site r c w).world
happen (delivery env payload) w = (on_event_finished env payload w).1
happen (tick env attempts) w = (run_tick env attempts w).1

-- The world after all of them, one after another.
unfoldable pub live : List Happening → World → World
unfolding dispatch on_event_finished run_tick
live [] w = w
live (h ∷ hs) w = live hs (happen h w)
