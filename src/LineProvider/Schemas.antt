-- ===== src/LineProvider/Schemas.antt =====
-- src/line_provider/schemas: the states, the stored event, the request bodies and the message.
-- Identifiers are numbers, since the code only compares them; instants are numbers on the clock
-- of `datetime.now(timezone.utc)`; a validated coefficient is a `Decimal`.
use bsw.Common.{ℕ, Bool, Option, none, some, leb, if◌then◌else◌}
use bsw.Money.{Decimal, quantize_coefficient}

-- `EventState`
pub data EventState : Type 0 where
  new finished_win finished_lose : EventState

-- `EventTerminalState`
pub data EventTerminalState : Type 0 where
  finished_win finished_lose : EventTerminalState

-- `Event`, and `EventRead`, which has the same fields
pub record Event : Type 0 where
  pub event_id : ℕ
  pub coefficient : Decimal
  pub deadline : ℕ
  pub state : EventState

pub record EventRead : Type 0 where
  pub event_id : ℕ
  pub coefficient : Decimal
  pub deadline : ℕ
  pub state : EventState

pub record EventCreate : Type 0 where
  pub event_id : ℕ
  pub coefficient : Decimal
  pub deadline : ℕ

pub record EventUpdate : Type 0 where
  pub coefficient : Decimal
  pub deadline : ℕ
  pub state : EventState

-- A correlation identifier: the text of an X-Request-ID header, a fresh `uuid4().hex`, or the
-- constant "no-request-id".
pub data RequestId : Type 0 where
  from_header fresh : ℕ → RequestId
  no_request_id : RequestId

pub record EventFinishedMessage : Type 0 where
  pub schema_version : ℕ
  pub event_id : ℕ
  pub new_state : EventTerminalState
  pub coefficient : Decimal
  pub occurred_at : ℕ
  pub correlation_id : RequestId

-- `_deadline_in_future`; `none` is the ValueError
unfoldable pub deadline_in_future : ℕ → ℕ → Option ℕ
deadline_in_future now value = if leb value now then none else some value

-- `gt=0, max_digits=8, decimal_places=2`: pydantic's test, a parameter of the model.
abbrev pub FieldTest : Type 0
FieldTest = Decimal → Bool

-- The `Coefficient` of a body: the field's test, then `_quantize`.
unfoldable pub parse_coefficient : FieldTest → Decimal → Option Decimal
unfolding quantize_coefficient
parse_coefficient field value = if field value then quantize_coefficient value else none

infixl 5 ◌>>=◌
abbrev ◌>>=◌ {ℓ} : {A B : Type ℓ} → Option A → (A → Option B) → Option B
none >>= f = none
some a >>= f = f a

-- Validation of a body of POST /event; `none` is a ValidationError.
unfoldable pub parse_event_create : FieldTest → ℕ → EventCreate → Option EventCreate
unfolding parse_coefficient deadline_in_future
parse_event_create field now body = do
  coefficient ← parse_coefficient field body.coefficient
  deadline ← deadline_in_future now body.deadline
  some (record { event_id = body.event_id; coefficient = coefficient; deadline = deadline })

-- Validation of a body of PUT /event/{event_id}: no test of the deadline.
unfoldable pub parse_event_update : FieldTest → EventUpdate → Option EventUpdate
unfolding parse_coefficient
parse_event_update field body = do
  coefficient ← parse_coefficient field body.coefficient
  some (record body { coefficient = coefficient })
