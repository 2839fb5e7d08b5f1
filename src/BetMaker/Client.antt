-- ===== src/BetMaker/Client.antt =====
-- src/bet_maker/facades/line_provider_client.py, http_event_lookup.py, event_lookup.py, and the
-- selector and route of GET /events: requests to line-provider, retried, and what becomes of each answer.
pub mod Answers
pub mod Stub
use bsw.Common.{
  ℕ, suc, ◌+◌, Bool, true, false, Option, none, some, List, ◌==◌, ◌&&◌, ltb, leb, if◌then◌else◌,
}
use bsw.LineProvider.Schemas.{EventState, EventRead}
use bsw.BetMaker.Exceptions.{
  Exn, Outcome, returned, raised, http_status_error, transport_error, malformed_payload,
  line_provider_unavailable, other_error, is_retryable, Tenacity,
}

-- `EventSnapshot`
pub record EventSnapshot : Type 0 where
  pub event_id : ℕ
  pub deadline : ℕ
  pub state : EventState

-- The body of a response, as the code reads it: a value; or one of JSONDecodeError, KeyError,
-- ValueError and ValidationError, as for a missing key; or another exception, such as the TypeError
-- for a JSON list where an object is expected.
pub data JsonBody (A : Type 0) : Type 0 where
  parsed : A → JsonBody A
  malformed misshapen : JsonBody A

-- What httpx brings back: a response; a TransportError; or another exception out of the request,
-- such as a DecodingError or the CancelledError of the task.
pub data HttpResult (A : Type 0) : Type 0 where
  response : ℕ → JsonBody A → HttpResult A
  transport_failure : HttpResult A
  client_raises : Exn → HttpResult A

-- line-provider, over the network: the answer to the n-th request that the service sends.
pub record LineProviderHttp : Type 0 where
  pub event : ℕ → ℕ → HttpResult EventSnapshot
  pub events : ℕ → HttpResult (List EventRead)

-- `response.raise_for_status()`: only a 2xx passes.
abbrev pub is_success : ℕ → Bool
is_success code = leb 200 code && ltb code 300

abbrev parse_payload : {A : Type 0} → JsonBody A → Outcome A
parse_payload (parsed a) = returned a
parse_payload malformed = raised malformed_payload
parse_payload misshapen = raised other_error

abbrev some_of : {A : Type 0} → Outcome A → Outcome (Option A)
some_of (returned a) = returned (some a)
some_of (raised x) = raised x

-- The body of `_call` in `HttpEventLookup.get_event`: the 404 comes before `raise_for_status`.
unfoldable pub read_event : HttpResult EventSnapshot → Outcome (Option EventSnapshot)
read_event transport_failure = raised transport_error
read_event (client_raises x) = raised x
read_event (response code payload) =
    if code == 404
    then returned none
    else if is_success code
    then some_of (parse_payload payload)
    else raised (http_status_error code)

-- The body of `_call` in `list_active_events`
unfoldable pub read_events : HttpResult (List EventRead) → Outcome (List EventRead)
read_events transport_failure = raised transport_error
read_events (client_raises x) = raised x
read_events (response code payload) =
    if is_success code then parse_payload payload else raised (http_status_error code)

-- The `except` clauses after `_call()`, the same in both.
unfoldable pub unavailable : {A : Type 0} → Outcome A → Outcome A
unavailable (returned a) = returned a
unavailable (raised (http_status_error code)) = raised line_provider_unavailable
unavailable (raised transport_error) = raised line_provider_unavailable
unavailable (raised malformed_payload) = raised line_provider_unavailable
unavailable (raised x) = raised x

module _ (tenacity : Tenacity) (http : LineProviderHttp) where
  -- One request, on the number of requests sent so far.
  abbrev pub call_event : ℕ → ℕ → Outcome (Option EventSnapshot) × ℕ
  call_event event_id n = (read_event (http.event n event_id), n + 1)

  abbrev pub call_events : ℕ → Outcome (List EventRead) × ℕ
  call_events n = (read_events (http.events n), n + 1)

  -- `HttpEventLookup.get_event`, with `attempts + 1` attempts: the settings ask for at least one.
  unfoldable pub get_event : ℕ → ℕ → ℕ → Outcome (Option EventSnapshot) × ℕ
  unfolding unavailable read_event is_retryable
  get_event attempts event_id n =
      let (o, n') = tenacity.retry (suc attempts) is_retryable (call_event event_id) n in
      (unavailable o, n')

  -- selectors/list_active_events.py
  unfoldable pub list_active_events : ℕ → ℕ → Outcome (List EventRead) × ℕ
  unfolding unavailable read_events is_retryable
  list_active_events attempts n =
      let (o, n') = tenacity.retry (suc attempts) is_retryable call_events n in (unavailable o, n')
