-- ===== src/LineProvider/Service.antt =====
-- src/line_provider/interactors/set_event_state.py and facades/event_bus.py: a change of state, and
-- the message that follows the first change to a terminal state.
use bsw.Common.{
  ◌≡◌, ◌⊎◌, inl, inr, refl, ℕ, Bool, true, false, Option, none, some, List, ◌∷◌, if◌then◌else◌,
}
use bsw.Money.{Decimal}
use bsw.LineProvider.Schemas.{
  EventState, EventTerminalState, Event, EventFinishedMessage, RequestId,
}
use bsw.LineProvider.StateMachine.{state_eq, is_transition_allowed}
use bsw.LineProvider.Store.{InMemoryEventStore, get_by_id, update}

-- messaging/routing.py
pub data RoutingKey : Type 0 where
  event_finished_win event_finished_lose : RoutingKey

-- One call of `broker.publish`, on the exchange `bsw.events`.
pub record Publication : Type 0 where
  pub message : EventFinishedMessage
  pub routing_key : RoutingKey
  pub persist : Bool
  pub correlation_id : RequestId

-- What a publication comes to: taken and confirmed; or an exception out of `broker.publish`, which
-- comes before RabbitMQ has the message, or, as when the confirm is lost, after it.
pub data Confirm : Type 0 where
  confirmed refused unconfirmed : Confirm

-- RabbitMQ and its client, which are not in the repository: what the next publication comes to, given
-- the ones that it took before.
abbrev pub Broker : Type 0
Broker = List Publication → Publication → Confirm

-- The state of the service: the store, and the publications that the broker took, newest first.
pub record LineProvider : Type 0 where
  pub store : InMemoryEventStore
  pub published : List Publication

-- What a handler raises.
pub data LineProviderError : Type 0 where
  event_already_exists event_not_found : ℕ → LineProviderError
  transition_forbidden : EventState → EventState → LineProviderError
  publish_failed : LineProviderError

pub data Outcome {ℓ} (A : Type ℓ) : Type ℓ where
  returned : A → Outcome A
  raised : LineProviderError → Outcome A

-- `_TERMINAL_TO_ROUTING` and `_EVENT_STATE_TO_TERMINAL`, which have the same keys
abbrev pub terminal_to_routing : EventState → Option RoutingKey
terminal_to_routing EventState.new = none
terminal_to_routing EventState.finished_win = some RoutingKey.event_finished_win
terminal_to_routing EventState.finished_lose = some RoutingKey.event_finished_lose

abbrev pub event_state_to_terminal : EventState → Option EventTerminalState
event_state_to_terminal EventState.new = none
event_state_to_terminal EventState.finished_win = some EventTerminalState.finished_win
event_state_to_terminal EventState.finished_lose = some EventTerminalState.finished_lose

pub Confirm-cases : (c : Confirm) → (c ≡ refused) ⊎ ((c ≡ confirmed) ⊎ (c ≡ unconfirmed))
Confirm-cases refused = inl refl
Confirm-cases confirmed = inr (inl refl)
Confirm-cases unconfirmed = inr (inr refl)

-- `RabbitEventBus.publish`: whether it returns.
unfoldable pub publish :
    Broker → EventFinishedMessage → RoutingKey → LineProvider → Bool × LineProvider
publish broker message routing_key lp =
    let call : Publication = record {
      message = message;
      routing_key = routing_key;
      persist = true;
      correlation_id = message.correlation_id;
    } in
    elim (broker lp.published call) [
      | confirmed ↦ (true, record lp { published = call ∷ lp.published })
      | refused ↦ (false, lp)
      | unconfirmed ↦ (false, record lp { published = call ∷ lp.published })
    ]

pub record SetEventState : Type 0 where
  pub event_id : ℕ
  pub coefficient : Decimal
  pub deadline : ℕ
  pub new_state : EventState
  pub correlation_id : RequestId

-- The message of a finished event, with the default `schema_version`.
abbrev pub finished_message : ℕ → RequestId → Event → EventTerminalState → EventFinishedMessage
finished_message now correlation_id event terminal = record {
  schema_version = 1;
  event_id = event.event_id;
  new_state = terminal;
  coefficient = event.coefficient;
  occurred_at = now;
  correlation_id = correlation_id;
}

-- The end of `set_event_state`, once the store is updated: an exception out of `publish` leaves
-- the update in place.
announce :
    Broker
    → ℕ
    → RequestId
    → Event
    → EventState
    → EventState
    → LineProvider
    → Outcome Event × LineProvider
unfolding publish
announce broker now correlation_id event previous new_state lp =
    if state_eq previous EventState.new
    then (elim (terminal_to_routing new_state) [
      | none ↦ (returned event, lp)
      | some key ↦ elim (event_state_to_terminal new_state) [
        | none ↦ (returned event, lp)
        | some terminal ↦
            let (returns, lp') =
              publish broker (finished_message now correlation_id event terminal) key lp in
            (if returns then returned event else raised publish_failed, lp')
      ]
    ])
    else (returned event, lp)

unfoldable pub set_event_state :
    Broker → ℕ → SetEventState → LineProvider → Outcome Event × LineProvider
unfolding get_by_id is_transition_allowed update announce
set_event_state broker now args lp = elim (get_by_id args.event_id lp.store) [
  | none ↦ (raised (event_not_found args.event_id), lp)
  | some current ↦
      if is_transition_allowed current.state args.new_state
      then (elim (update args.event_id args.coefficient args.deadline args.new_state lp.store) [
        | none ↦ (raised (event_not_found args.event_id), lp)
        | some (new_event, previous, store) ↦
            announce broker now args.correlation_id new_event previous args.new_state
              (record lp { store = store })
      ])
      else (raised (transition_forbidden current.state args.new_state), lp)
]
