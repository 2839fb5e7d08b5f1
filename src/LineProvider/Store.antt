-- ===== src/LineProvider/Store.antt =====
-- src/line_provider/infrastructure/store/in_memory.py, create_event.py and the two selectors. No
-- coroutine of the store awaits while it holds the lock, so each method is one step.
use bsw.Common.{ℕ, Option, none, some, List, ltb, filter, ◌&&◌}
use bsw.Common.Dict.{Dict, lookup, insert, values}
use bsw.Money.{Decimal}
use bsw.LineProvider.Schemas.{EventState, Event, EventCreate}
use bsw.LineProvider.StateMachine.{state_eq}

-- `InMemoryEventStore`: its `_data`
abbrev pub InMemoryEventStore : Type 0
InMemoryEventStore = Dict Event

-- `self._data.get(event_id)`
unfoldable pub get_by_id : ℕ → InMemoryEventStore → Option Event
get_by_id event_id data_ = lookup event_id data_

-- `none` is EventAlreadyExistsError.
unfoldable pub add : Event → InMemoryEventStore → Option (Event × InMemoryEventStore)
unfolding get_by_id
add event data_ = elim (get_by_id event.event_id data_) [
  | some old ↦ none
  | none ↦ some (event, insert event.event_id event data_)
]

-- `none` is EventNotFoundError; otherwise the new event, the state before, and the store.
unfoldable pub update :
    ℕ
    → Decimal
    → ℕ
    → EventState
    → InMemoryEventStore
    → Option (Event × EventState × InMemoryEventStore)
unfolding get_by_id
update event_id coefficient deadline state data_ = elim (get_by_id event_id data_) [
  | none ↦ none
  | some current ↦
      let new_event = record current {
        coefficient = coefficient;
        deadline = deadline;
        state = state;
      } in
      some (new_event, current.state, insert event_id new_event data_)
]

unfoldable pub list_all : InMemoryEventStore → List Event
list_all data_ = values data_

-- interactors/create_event.py
unfoldable pub create_event : EventCreate → InMemoryEventStore → Option (Event × InMemoryEventStore)
unfolding add
create_event body store =
    add
      (record {
        event_id = body.event_id;
        coefficient = body.coefficient;
        deadline = body.deadline;
        state = EventState.new;
      })
      store

-- selectors/get_event_by_id.py
unfoldable pub get_event_by_id : ℕ → InMemoryEventStore → Option Event
unfolding get_by_id
get_event_by_id event_id store = get_by_id event_id store

-- selectors/list_active_events.py
unfoldable pub list_active_events : ℕ → InMemoryEventStore → List Event
unfolding list_all
list_active_events now store =
    filter (λ e. state_eq e.state EventState.new && ltb now e.deadline) (list_all store)
