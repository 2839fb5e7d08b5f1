-- ===== src/System/Lookup.antt =====
-- The lookups of bet-maker against the store of line-provider, and place_bet against GET /events.
use bsw.Common.{
  ℕ, ◌≡◌, ◌↔◌, Bool, true, false, Option, none, some, List, any, arith, ltb, ◌&&◌, ◌==◌,
}
use bsw.Common.Dict.{lookup}
use bsw.LineProvider.StateMachine.{state_eq}
use bsw.LineProvider.Schemas.{EventState, Event, FieldTest}
use bsw.LineProvider.Store.{list_active_events}
use bsw.LineProvider.Service.{Broker, LineProvider}
use bsw.LineProvider.Api.{Request, initial, serve, to_event_read, get_event_route}
use bsw.LineProvider.Steps.Keys.{any-values, serve-IsKeyed}
use bsw.BetMaker.Exceptions.{returned, Tenacity}
use bsw.BetMaker.Client.{EventSnapshot, read_event, get_event}
use bsw.BetMaker.Client.Answers.{get_event-Recovers}
use bsw.BetMaker.PlaceBet.{rejection}
use bsw.System.{snapshot_of, event_answer, connected}

-- The snapshot of what the store has.
abbrev pub stored_snapshot : Option Event → Option EventSnapshot
stored_snapshot none = none
stored_snapshot (some e) = some (snapshot_of (to_event_read e))

pub route-read :
    (i : ℕ) (lp : LineProvider)
    → read_event (event_answer (get_event_route i lp).0)
      ≡ returned (stored_snapshot (lookup i lp.store))
unfolding get_event_route read_event
route-read i lp = ground arith

-- Whatever number of attempts it has and however many requests were sent before, `get_event` over a
-- network that loses nothing returns the snapshot of the event in the store, and None if it has none.
pub get_event-connected :
    (tenacity : Tenacity) (now attempts i n : ℕ) (lp : LineProvider)
    → (get_event tenacity (connected now lp) attempts i n).0
      ≡ returned (stored_snapshot (lookup i lp.store))
get_event-connected tenacity now attempts i n lp =
    get_event-Recovers tenacity (connected now lp) i n attempts 0
      (stored_snapshot (lookup i lp.store)) (omega arith) (route-read i lp)

-- In every state that line-provider reaches from its start, `place_bet` lets a bet on an event through,
-- given the event's stored snapshot, exactly if GET /events lists the event at that instant.
pub rejection-list_active_events :
    (broker : Broker) (field : FieldTest) (rs : List Request) (now i : ℕ)
    → let lp = serve broker field rs initial in
      (rejection now (stored_snapshot (lookup i lp.store)) ≡ none)
      ↔ (any (λ e. e.event_id == i) (list_active_events now lp.store) ≡ true)
unfolding rejection list_active_events
rejection-list_active_events broker field rs now i =
    let lp = serve broker field rs initial in
    let listed =
      any-values (λ e. state_eq e.state EventState.new && ltb now e.deadline) i lp.store
        (serve-IsKeyed broker field rs initial tt) in
    bettable (lookup i lp.store) listed
  where
    bettable :
        (o : Option Event) {b : Bool}
        → b ≡ (elim o [
          | none ↦ false
          | some e ↦ state_eq e.state EventState.new && ltb now e.deadline
        ])
        → (rejection now (stored_snapshot o) ≡ none) ↔ (b ≡ true)
    bettable none e = ground arith
    bettable (some x) e = ground arith
