-- ===== src/System.antt =====
-- The two services together: src/line_provider with its routes, and src/bet_maker with its consumer,
-- its reconciler and POST /bet, over the messages and the HTTP answers that pass between them.
pub mod Agreement
pub mod Lookup
pub mod Settlement
pub mod Restart
pub mod Outcome
pub mod Tracing
pub mod Pipeline
mod Tests
use bsw.Common.{ℕ, ◌≡◌, ◌⊎◌, Option, some, Bool, true, List, [], ◌∷◌, leb}
use bsw.LineProvider.Schemas.{FieldTest, EventRead}
use bsw.LineProvider.Service.{Broker, LineProvider, Publication}
use bsw.LineProvider.Api.{
  Request, Response, ok_200, ok_list_200, not_found_404, get_event_route, list_events_route,
  dispatch, initial, serve,
}
use bsw.BetMaker.Database.{World}
use bsw.BetMaker.Exceptions.{Exn}
use bsw.BetMaker.Client.{
  EventSnapshot, HttpResult, JsonBody, parsed, malformed, response, transport_failure,
  client_raises, LineProviderHttp,
}
use bsw.BetMaker.PlaceBet.{Env, BetCreate, post_bet}
use bsw.BetMaker.Reconciler.{run_tick}
use bsw.BetMaker.Consumer.{on_event_finished}

pub record System : Type 0 where
  pub line_provider : LineProvider
  pub world : World

-- `EventSnapshot(event_id=…, deadline=…, state=…)` of the keys of an EventRead's JSON
abbrev pub snapshot_of : EventRead → EventSnapshot
snapshot_of r = record { event_id = r.event_id; deadline = r.deadline; state = r.state }

-- What GET /event/{event_id} of line-provider answers, as the client of bet-maker meets it. The route
-- answers only 200 and 404.
abbrev pub event_answer : Response → HttpResult EventSnapshot
event_answer (ok_200 r) = response 200 (parsed (snapshot_of r))
event_answer not_found_404 = response 404 malformed
event_answer _ = response 500 malformed

-- The same of GET /events, which answers only 200.
abbrev pub events_answer : Response → HttpResult (List EventRead)
events_answer (ok_list_200 es) = response 200 (parsed es)
events_answer _ = response 500 malformed

-- A network that loses nothing, to line-provider in this state.
abbrev pub connected : ℕ → LineProvider → LineProviderHttp
connected now lp = record {
  event = λ n i. event_answer (get_event_route i lp).0;
  events = λ n. events_answer (list_events_route now lp).0;
}

-- The message was taken by the broker.
abbrev pub Sent : Publication → List Publication → Type 0
Sent p [] = ⊥
Sent p (q ∷ qs) = (p ≡ q) ⊎ Sent p qs

module _ (broker : Broker) (field : FieldTest) where
  -- A request about the event `i` was lost, or the client raised, or the request failed in
  -- line-provider or before it, or was answered by the route, in this state or in an earlier one.
  abbrev pub Answered : LineProvider → ℕ → HttpResult EventSnapshot → Type 0
  Answered lp i r =
      (r ≡ transport_failure)
      ⊎ ((x : Exn) × (r ≡ client_raises x))
      ⊎ ((code : ℕ) × (leb 500 code ≡ true) × (r ≡ response code malformed))
      ⊎ ((earlier : LineProvider) × (rs : List Request) × (serve broker field rs earlier ≡ lp)
          × (r ≡ event_answer (get_event_route i earlier).0))

  -- One step: a request to line-provider; the delivery of a message that it sent, once more or for the
  -- first time; a tick of the reconciler; or a request POST /bet. Each step has a database, locks and
  -- failures of its own.
  pub data Step : System → System → Type 1 where
    request :
        (s : System) (r : Request)
        → Step s (record s { line_provider = (dispatch broker field r s.line_provider).2 })
    deliver :
        (s : System) (env : Env) (p : Publication)
        → Sent p s.line_provider.published
        → Step s (record s { world = (on_event_finished env (some p.message) s.world).1 })
    tick :
        (s : System) (env : Env) (attempts : ℕ)
        → ((n i : ℕ) → Answered s.line_provider i (env.http.event n i))
        → Step s (record s { world = (run_tick env attempts s.world).1 })
    bet :
        (s : System) (env : Env) (amount_test : FieldTest) (attempts now : ℕ) (body : BetCreate)
        → Step s (record s { world = (post_bet env amount_test attempts now body s.world).1 })

  pub data Reach (s : System) : System → Type 1 where
    here : Reach s s
    next : {t u : System} → Reach s t → Step t u → Reach s u

-- Both services at their first start: an empty store and an empty table.
abbrev pub started : System
started = record { line_provider = initial; world = record { table = []; begun = 0; requests = 0 } }
