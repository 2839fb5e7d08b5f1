-- ===== src/LineProvider/Api.antt =====
-- src/line_provider/api/events.py and middleware.py: the routes over the interactors, the answers
-- that each exception becomes, and a run of the service over a sequence of requests.
use bsw.Common.{ℕ, Bool, true, false, if◌then◌else◌, Option, none, some, List, [], ◌∷◌, map}
use bsw.LineProvider.Schemas.{
  EventState, Event, EventRead, EventCreate, EventUpdate, RequestId, from_header, fresh,
  no_request_id, FieldTest, parse_event_create, parse_event_update,
}
use bsw.LineProvider.Store.{create_event, get_event_by_id, list_active_events}
use bsw.LineProvider.Service.{
  Broker, LineProvider, Outcome, returned, raised, event_already_exists, event_not_found,
  transition_forbidden, publish_failed, set_event_state,
}

-- The answers, by status code; a 422 is FastAPI's for a body, or the route's for a transition.
pub data Response : Type 0 where
  created_201 ok_200 : EventRead → Response
  ok_list_200 : List EventRead → Response
  not_found_404 : Response
  conflict_409 : ℕ → Response
  invalid_body_422 : Response
  transition_422 : EventState → EventState → Response
  internal_error_500 : Response

-- `EventRead.model_validate(event.model_dump())`
abbrev pub to_event_read : Event → EventRead
to_event_read e = record {
  event_id = e.event_id;
  coefficient = e.coefficient;
  deadline = e.deadline;
  state = e.state;
}

pub data Call : Type 0 where
  post_event : EventCreate → Call
  put_event : ℕ → EventUpdate → Call
  get_event : ℕ → Call
  list_events : Call

-- A request: when it is handled, its X-Request-ID header, and the uuid that the middleware draws.
pub record Request : Type 0 where
  pub now : ℕ
  pub header : Option ℕ
  pub uuid : ℕ
  pub call : Call

unfoldable pub post_event_route :
    FieldTest → ℕ → EventCreate → LineProvider → Response × LineProvider
unfolding parse_event_create create_event
post_event_route field now body lp = elim (parse_event_create field now body) [
  | none ↦ (invalid_body_422, lp)
  | some valid ↦ elim (create_event valid lp.store) [
    | none ↦ (conflict_409 valid.event_id, lp)
    | some (event, store) ↦ (created_201 (to_event_read event), record lp { store = store })
  ]
]

-- `except EventNotFoundError`, `except TransitionForbiddenError`; any other exception is a 500.
abbrev pub put_answer : Outcome Event → Response
put_answer (returned event) = ok_200 (to_event_read event)
put_answer (raised (event_not_found i)) = not_found_404
put_answer (raised (transition_forbidden current target)) = transition_422 current target
put_answer (raised (event_already_exists i)) = internal_error_500
put_answer (raised publish_failed) = internal_error_500

-- `request.headers.get("X-Request-ID", "no-request-id")`
abbrev pub correlation_of : Option ℕ → RequestId
correlation_of none = no_request_id
correlation_of (some h) = from_header h

unfoldable pub put_event_route :
    Broker → FieldTest → ℕ → Option ℕ → ℕ → EventUpdate → LineProvider → Response × LineProvider
unfolding parse_event_update set_event_state
put_event_route broker field now header event_id body lp = elim (parse_event_update field body) [
  | none ↦ (invalid_body_422, lp)
  | some valid ↦
      let (outcome, lp') =
        set_event_state broker now
          (record {
            event_id = event_id;
            coefficient = valid.coefficient;
            deadline = valid.deadline;
            new_state = valid.state;
            correlation_id = correlation_of header;
          })
          lp in
      (put_answer outcome, lp')
]

unfoldable pub get_event_route : ℕ → LineProvider → Response × LineProvider
unfolding get_event_by_id
get_event_route event_id lp = elim (get_event_by_id event_id lp.store) [
  | none ↦ (not_found_404, lp)
  | some event ↦ (ok_200 (to_event_read event), lp)
]

unfoldable pub list_events_route : ℕ → LineProvider → Response × LineProvider
unfolding list_active_events
list_events_route now lp = (ok_list_200 (map to_event_read (list_active_events now lp.store)), lp)

unfoldable pub route : Broker → FieldTest → Request → Call → LineProvider → Response × LineProvider
unfolding post_event_route put_event_route get_event_route list_events_route
route broker field r (post_event body) = post_event_route field r.now body
route broker field r (put_event event_id body) =
    put_event_route broker field r.now r.header event_id body
route broker field r (get_event event_id) = get_event_route event_id
route broker field r list_events = list_events_route r.now

-- An exception out of the route passes the middleware, too, and is answered outside of it.
abbrev pub is_unhandled : Response → Bool
is_unhandled internal_error_500 = true
is_unhandled _ = false

-- `request.headers.get("X-Request-ID", uuid4().hex)`
abbrev pub request_id : Request → RequestId
request_id r = elim r.header [ none ↦ fresh r.uuid | some h ↦ from_header h ]

-- `RequestContextMiddleware.dispatch`: the answer, its X-Request-ID header, and the state.
unfoldable pub dispatch :
    Broker → FieldTest → Request → LineProvider → Response × Option RequestId × LineProvider
unfolding route
dispatch broker field r lp =
    let (response, lp') = route broker field r r.call lp in
    (response, if is_unhandled response then none else some (request_id r), lp')

-- `InMemoryEventStore()` and nothing published: the state that lifespan sets up.
abbrev pub initial : LineProvider
initial = record { store = []; published = [] }

-- The state after a sequence of requests.
unfoldable pub serve : Broker → FieldTest → List Request → LineProvider → LineProvider
serve broker field [] lp = lp
serve broker field (r ∷ rs) lp = serve broker field rs (dispatch broker field r lp).2
