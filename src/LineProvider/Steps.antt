-- ===== src/LineProvider/Steps.antt =====
-- What one request can do to the service, as a relation: the routes of src/line_provider/api/events.py
-- and the interactors under them refine it, and the invariants go by cases on it.
pub mod Invariant
pub mod Finality
pub mod Raised
pub mod Keys
pub mod Tracing
pub mod Absent
use bsw.Common.{
  ℕ, Bool, true, false, Option, none, some, List, [], ◌∷◌, ◌≡◌, refl, arith, ◌⊎◌, inl, inr,
  Option-cases, Bool-cases,
}
use bsw.Common.Dict.{lookup, insert}
use bsw.LineProvider.Schemas.{
  EventState, EventTerminalState, Event, EventCreate, EventUpdate, FieldTest, parse_event_create,
  parse_event_update,
}
use bsw.LineProvider.Store.{get_by_id, add, update, create_event}
use bsw.LineProvider.Service.{
  Broker, Confirm-cases, refused, LineProvider, Publication, SetEventState, RoutingKey,
  event_state_to_terminal, terminal_to_routing, finished_message, set_event_state,
}
use bsw.LineProvider.Api.{
  Request, Call, post_event, put_event, get_event, list_events, Response, post_event_route,
  put_event_route, get_event_route, list_events_route, route, dispatch, correlation_of,
}

pub data Step (broker : Broker) (lp lp' : LineProvider) : Type 0 where
  idle : lp' ≡ lp → Step broker lp lp'
  create :
      (e : Event)
      → lookup e.event_id lp.store ≡ none
      → e.state ≡ EventState.new
      → lp' ≡ record lp { store = insert e.event_id e lp.store }
      → Step broker lp lp'
  edit :
      (k : ℕ) (old e : Event)
      → lookup k lp.store ≡ some old
      → e.event_id ≡ old.event_id
      → e.state ≡ old.state
      → lp' ≡ record lp { store = insert k e lp.store }
      → Step broker lp lp'
  finish :
      (k : ℕ) (old e : Event) (t : EventTerminalState) (p : Publication)
      → lookup k lp.store ≡ some old
      → old.state ≡ EventState.new
      → e.event_id ≡ old.event_id
      → event_state_to_terminal e.state ≡ some t
      → p.message.event_id ≡ e.event_id
      → p.message.new_state ≡ t
      → lp' ≡ record { store = insert k e lp.store; published = p ∷ lp.published }
      → Step broker lp lp'
  finish_unannounced :
      (k : ℕ) (old e : Event) (t : EventTerminalState) (p : Publication)
      → lookup k lp.store ≡ some old
      → old.state ≡ EventState.new
      → e.event_id ≡ old.event_id
      → event_state_to_terminal e.state ≡ some t
      → broker lp.published p ≡ refused
      → lp' ≡ record lp { store = insert k e lp.store }
      → Step broker lp lp'

-- The event that `update` writes, and the one that `create_event` adds.
abbrev pub written : SetEventState → Event → Event
written args old = record old {
  coefficient = args.coefficient;
  deadline = args.deadline;
  state = args.new_state;
}

abbrev pub created : EventCreate → Event
created body = record {
  event_id = body.event_id;
  coefficient = body.coefficient;
  deadline = body.deadline;
  state = EventState.new;
}

module _ (broker : Broker) (now : ℕ) where
  set_event_state-finish :
      (args : SetEventState) (lp : LineProvider) (old : Event) (t : EventTerminalState)
      (key : RoutingKey)
      → lookup args.event_id lp.store ≡ some old
      → old.state ≡ EventState.new
      → event_state_to_terminal args.new_state ≡ some t
      → terminal_to_routing args.new_state ≡ some key
      → Step broker lp (set_event_state broker now args lp).1
  unfolding set_event_state
  set_event_state-finish args lp old t key found was_new terminal routed =
      let call : Publication = record {
        message = finished_message now args.correlation_id (written args old) t;
        routing_key = key;
        persist = true;
        correlation_id = args.correlation_id;
      } in
      elim (Confirm-cases (broker lp.published call)) [
        | inl lost ↦
            finish_unannounced args.event_id old (written args old) t call found was_new refl
              terminal lost (ground arith)
        | inr (inl known) ↦
            finish args.event_id old (written args old) t call found was_new refl terminal refl refl
              (ground arith)
        | inr (inr unknown) ↦
            finish args.event_id old (written args old) t call found was_new refl terminal refl refl
              (ground arith)
      ]

  set_event_state-edit :
      (args : SetEventState) (lp : LineProvider) (old : Event)
      → lookup args.event_id lp.store ≡ some old
      → args.new_state ≡ old.state
      → Step broker lp (set_event_state broker now args lp).1
  unfolding set_event_state
  set_event_state-edit args lp old found same =
      edit args.event_id old (written args old) found refl same (ground arith)

  set_event_state_found :
      (from to : EventState) (args : SetEventState) (lp : LineProvider) (old : Event)
      → lookup args.event_id lp.store ≡ some old
      → old.state ≡ from
      → args.new_state ≡ to
      → Step broker lp (set_event_state broker now args lp).1
  unfolding set_event_state
  set_event_state_found EventState.new EventState.new args lp old found was is =
      set_event_state-edit args lp old found (cc)
  set_event_state_found EventState.new EventState.finished_win args lp old found was is =
      set_event_state-finish args lp old EventTerminalState.finished_win
        RoutingKey.event_finished_win found was (rw is) (rw is)
  set_event_state_found EventState.new EventState.finished_lose args lp old found was is =
      set_event_state-finish args lp old EventTerminalState.finished_lose
        RoutingKey.event_finished_lose found was (rw is) (rw is)
  set_event_state_found EventState.finished_win EventState.finished_win args lp old found was is =
      set_event_state-edit args lp old found (cc)
  set_event_state_found EventState.finished_lose EventState.finished_lose args lp old found was is =
      set_event_state-edit args lp old found (cc)
  set_event_state_found _ _ args lp old found was is = idle (ground arith)

  set_event_state-Step :
      (args : SetEventState) (lp : LineProvider)
      → Step broker lp (set_event_state broker now args lp).1
  set_event_state-Step args lp = elim (Option-cases (lookup args.event_id lp.store)) [
    | inl unknown ↦ idle (unfold set_event_state in ground arith)
    | inr (old, found) ↦ set_event_state_found old.state args.new_state args lp old found refl refl
  ]

module _ (broker : Broker) (field : FieldTest) where
  post_event_route-Step :
      (now : ℕ) (body : EventCreate) (lp : LineProvider)
      → Step broker lp (post_event_route field now body lp).1
  unfolding post_event_route
  post_event_route-Step now body lp = elim (Option-cases (parse_event_create field now body)) [
    | inl invalid ↦ idle (ground arith)
    | inr (valid, parsed) ↦ elim (Option-cases (lookup valid.event_id lp.store)) [
      | inl unknown ↦ create (created valid) unknown refl (ground arith)
      | inr (old, found) ↦ idle (ground arith)
    ]
  ]

  put_event_route-Step :
      (now : ℕ) (header : Option ℕ) (event_id : ℕ) (body : EventUpdate) (lp : LineProvider)
      → Step broker lp (put_event_route broker field now header event_id body lp).1
  unfolding put_event_route
  put_event_route-Step now header event_id body lp =
      elim (Option-cases (parse_event_update field body)) [
        | inl invalid ↦ idle (ground arith)
        | inr (valid, parsed) ↦ rw (put_event_route, parsed) (set_event_state-Step broker now _ lp)
      ]

  get_event_route-Step :
      (event_id : ℕ) (lp : LineProvider) → Step broker lp (get_event_route event_id lp).1
  unfolding get_event_route
  get_event_route-Step event_id lp = idle (ground arith)

  route-Step :
      (r : Request) (c : Call) (lp : LineProvider) → Step broker lp (route broker field r c lp).1
  unfolding route
  route-Step r (post_event body) lp = post_event_route-Step r.now body lp
  route-Step r (put_event i body) lp = put_event_route-Step r.now r.header i body lp
  route-Step r (get_event i) lp = get_event_route-Step i lp
  route-Step r list_events lp = unfold list_events_route in idle refl

  -- Whatever the request, one dispatch is one step of the relation: nothing is changed, an event is
  -- created in state NEW, an event is edited in its state, or a NEW event finishes, with one message
  -- that tells how unless the broker refuses it.
  pub dispatch-Step :
      (r : Request) (lp : LineProvider) → Step broker lp (dispatch broker field r lp).2
  unfolding dispatch
  dispatch-Step r lp = route-Step r r.call lp
