-- ===== src/Messaging/Wire.antt =====
-- What passes between the services as JSON: the message of src/line_provider/schemas/messages.py and its
-- twin in src/bet_maker/schemas/messages.py, and EventRead of both schemas/events.py. The texts of UUIDs,
-- decimals, instants and ids are made, and the values that stand for them read, by libraries: `Formats`.
pub mod RoundTrip
mod Tests
use Prim.Native.String.{String}
use text.Mathlib.Text.{◌==◌ as str_eq}
use bsw.Common.{
  ℕ, ◌≡◌, ◌≤◌, refl, Bool, true, false, ◌&&◌, ◌||◌, Option, none, some, List, [], ◌∷◌, any, leb,
  if◌then◌else◌, arith,
}
use bsw.Money.{Decimal}
use bsw.LineProvider.Schemas.{
  EventState, EventTerminalState, EventRead, EventFinishedMessage, RequestId, FieldTest,
}
use bsw.BetMaker.Client.{EventSnapshot, JsonBody, parsed, malformed, misshapen}

pub data Value : Type 0 where
  string : String → Value
  number : ℕ → Value
  -- null, a boolean, a list or an object
  other : ℕ → Value

-- A JSON object.
abbrev pub Object : Type 0
Object = List (String × Value)

abbrev pub value_of : String → Object → Option Value
value_of k [] = none
value_of k ((j, v) ∷ o) = let rest = value_of k o in if str_eq j k then some v else rest

pub record Formats : Type 0 where
  pub read_number : Value → Option ℕ
  pub read_number_lem : (n : ℕ) → read_number (number n) ≡ some n
  pub uuid_text : ℕ → String
  pub read_uuid : Value → Option ℕ
  pub read_uuid_lem : (i : ℕ) → read_uuid (string (uuid_text i)) ≡ some i
  pub decimal_text : Decimal → String
  pub read_decimal : Value → Option Decimal
  pub read_decimal_lem : (d : Decimal) → read_decimal (string (decimal_text d)) ≡ some d
  pub instant_text : ℕ → String
  pub read_instant : Value → Option ℕ
  pub read_instant_lem : (t : ℕ) → read_instant (string (instant_text t)) ≡ some t
  pub id_text : RequestId → String
  pub read_id : Value → Option RequestId
  -- Two ids may have one text: a header can hold any text.
  pub read_id_lem :
      (c : RequestId)
      → (c' : RequestId) × (read_id (string (id_text c)) ≡ some c') × (id_text c' ≡ id_text c)

-- The values of the enums
abbrev pub terminal_text : EventTerminalState → String
terminal_text EventTerminalState.finished_win = "FINISHED_WIN"
terminal_text EventTerminalState.finished_lose = "FINISHED_LOSE"

abbrev pub read_terminal : String → Option EventTerminalState
read_terminal s =
    if str_eq s "FINISHED_WIN"
    then some EventTerminalState.finished_win
    else if str_eq s "FINISHED_LOSE"
    then some EventTerminalState.finished_lose
    else none

abbrev pub state_text : EventState → String
state_text EventState.new = "NEW"
state_text EventState.finished_win = "FINISHED_WIN"
state_text EventState.finished_lose = "FINISHED_LOSE"

abbrev pub read_state : String → Option EventState
read_state s =
    if str_eq s "NEW"
    then some EventState.new
    else if str_eq s "FINISHED_WIN"
    then some EventState.finished_win
    else if str_eq s "FINISHED_LOSE"
    then some EventState.finished_lose
    else none

infixl 5 ◌>>=◌
abbrev ◌>>=◌ : {A B : Type 0} → Option A → (A → Option B) → Option B
none >>= f = none
some a >>= f = f a

-- A required field
abbrev required : {A : Type 0} → (Value → Option A) → String → Object → Option A
required read k o = elim (value_of k o) [ some v ↦ read v | none ↦ none ]

-- An enum is read from the text of one of its values.
abbrev by_text : {A : Type 0} → (String → Option A) → Value → Option A
by_text read (string s) = read s
by_text read _ = none

-- `Field(ge=1)`
abbrev positive : ℕ → Option ℕ
positive n = if leb 1 n then some n else none

-- `extra="forbid"`
abbrev only : List String → Object → Bool
only ks [] = true
only ks ((j, v) ∷ o) = any (str_eq j) ks && only ks o

abbrev pub message_fields : List String
message_fields =
    "schema_version" ∷ "event_id" ∷ "new_state" ∷ "coefficient" ∷ "occurred_at" ∷ "correlation_id"
    ∷ []

abbrev event_fields : List String
event_fields = "event_id" ∷ "coefficient" ∷ "deadline" ∷ "state" ∷ []

-- `gt=0, max_digits=8, decimal_places=2`, pydantic's test
abbrev tested : FieldTest → Decimal → Option Decimal
tested field d = if field d then some d else none

module _ (f : Formats) where
  -- The message as line-provider writes it
  unfoldable pub encode_message : EventFinishedMessage → Object
  encode_message m =
      ("schema_version", number m.schema_version)
      ∷ ("event_id", string (f.uuid_text m.event_id))
      ∷ ("new_state", string (terminal_text m.new_state))
      ∷ ("coefficient", string (f.decimal_text m.coefficient))
      ∷ ("occurred_at", string (f.instant_text m.occurred_at))
      ∷ ("correlation_id", string (f.id_text m.correlation_id))
      ∷ []

  -- `schema_version: Annotated[int, Field(ge=1)] = 1`
  abbrev version_field : Object → Option ℕ
  version_field o = elim (value_of "schema_version" o) [
    | none ↦ some 1
    | some v ↦ f.read_number v >>= positive
  ]

  -- `EventFinishedMessage.model_validate(payload)` of bet-maker; `none` is a ValidationError.
  unfoldable pub decode_message : FieldTest → Object → Option EventFinishedMessage
  decode_message field o = elim (only message_fields o) [
    | false ↦ none
    | true ↦ do
      version ← version_field o
      event_id ← required f.read_uuid "event_id" o
      new_state ← required (by_text read_terminal) "new_state" o
      raw ← required f.read_decimal "coefficient" o
      coefficient ← tested field raw
      occurred_at ← required f.read_instant "occurred_at" o
      correlation_id ← required f.read_id "correlation_id" o
      some (record {
        schema_version = version;
        event_id = event_id;
        new_state = new_state;
        coefficient = coefficient;
        occurred_at = occurred_at;
        correlation_id = correlation_id;
      })
  ]

  -- EventRead as the routes of line-provider write it
  unfoldable pub encode_event : EventRead → Object
  encode_event e =
      ("event_id", string (f.uuid_text e.event_id))
      ∷ ("coefficient", string (f.decimal_text e.coefficient))
      ∷ ("deadline", string (f.instant_text e.deadline))
      ∷ ("state", string (state_text e.state))
      ∷ []

  -- `EventRead.model_validate(item)` of bet-maker, for GET /events
  unfoldable pub decode_event : Object → Option EventRead
  decode_event o = elim (only event_fields o) [
    | false ↦ none
    | true ↦ do
      event_id ← required f.read_uuid "event_id" o
      coefficient ← required f.read_decimal "coefficient" o
      deadline ← required f.read_instant "deadline" o
      state ← required (by_text read_state) "state" o
      some (record {
        event_id = event_id;
        coefficient = coefficient;
        deadline = deadline;
        state = state;
      })
  ]

  abbrev body_of : Option EventSnapshot → JsonBody EventSnapshot
  body_of none = malformed
  body_of (some s) = parsed s

  -- `EventSnapshot(event_id=UUID(payload["event_id"]), …)`: where the UUID is expected, what is no text
  -- is an AttributeError or a TypeError, which no clause catches.
  unfoldable pub read_snapshot : Object → JsonBody EventSnapshot
  read_snapshot o = elim (value_of "event_id" o) [
    | none ↦ malformed
    | some (string t) ↦ body_of (do
      event_id ← f.read_uuid (string t)
      deadline ← required f.read_instant "deadline" o
      state ← required (by_text read_state) "state" o
      some (record { event_id = event_id; deadline = deadline; state = state }))
    | some v ↦ misshapen
  ]
