-- ===== src/Messaging/Wire/Tests.antt =====
-- Formats that meet their laws, in which a number is a row of signs, and a message through them.
use Prim.Native.Char.{code}
use Prim.Native.String.{String}
use bsw.Common.{
  ℕ, zero, suc, ◌≡◌, refl, Bool, true, false, Option, none, some, ◌∷◌, arith, ◌==◌, if◌then◌else◌,
}
use bsw.Money.{Decimal, Exponent, up, down, two_places}
use bsw.LineProvider.Schemas.{
  EventState, EventTerminalState, EventRead, EventFinishedMessage, RequestId, from_header, fresh,
  no_request_id, FieldTest,
}
use bsw.BetMaker.Client.{parsed}
use bsw.System.{snapshot_of}
use bsw.Messaging.Wire.{
  Formats, Value, string, number, encode_message, decode_message, encode_event, decode_event,
  read_snapshot,
}
use bsw.Messaging.Wire.RoundTrip.{IsSame, decode-encode}

abbrev put : ℕ → String → String
put zero s = String.◌∷◌ "." s
put (suc n) s = String.◌∷◌ "x" (put n s)

abbrev one_more : Option (ℕ × String) → Option (ℕ × String)
one_more none = none
one_more (some (n, s)) = some (suc n, s)

abbrev get : String → Option (ℕ × String)
get String.[] = none
get (String.◌∷◌ c s) = let rest = get s in if code c == b'.' then some (0, s) else one_more rest

pub get-put : (n : ℕ) (s : String) → get (put n s) ≡ some (n, s)
get-put zero s = refl
get-put (suc n) s = rw (get-put n s) refl

infixl 5 ◌>>=◌
abbrev ◌>>=◌ : {A B : Type 0} → Option A → (A → Option B) → Option B
none >>= f = none
some a >>= f = f a

abbrev number_text : ℕ → String
number_text n = put n String.[]

abbrev read_number : String → Option ℕ
read_number s = do (n, rest) ← get s; some n

pub read_number_text : (n : ℕ) → read_number (number_text n) ≡ some n
read_number_text n = rw (get-put n String.[]) refl

abbrev sign : Bool → ℕ
sign true = 1
sign false = 0

abbrev sign_of : ℕ → Bool
sign_of zero = false
sign_of (suc n) = true

abbrev exponent_text : Exponent → String
exponent_text (up n) = put 1 (number_text n)
exponent_text (down n) = put 0 (number_text n)

abbrev exponent_of : ℕ → ℕ → Exponent
exponent_of zero n = down n
exponent_of (suc k) n = up n

abbrev decimal_text : Decimal → String
decimal_text d = put (sign d.negative) (put d.digits (exponent_text d.exponent))

abbrev read_decimal : String → Option Decimal
read_decimal s = do
  (negative, s1) ← get s
  (digits, s2) ← get s1
  (tag, s3) ← get s2
  n ← read_number s3
  some (record { negative = sign_of negative; digits = digits; exponent = exponent_of tag n })

pub read_decimal_text : (d : Decimal) → read_decimal (decimal_text d) ≡ some d
read_decimal_text d = by_parts d.negative d.exponent
  where
    by_parts :
        (b : Bool) (x : Exponent)
        → read_decimal (put (sign b) (put d.digits (exponent_text x)))
          ≡ some (record { negative = b; digits = d.digits; exponent = x })
    by_parts true (up n) = rw (get-put d.digits (exponent_text (up n)), read_number_text n) refl
    by_parts true (down n) = rw (get-put d.digits (exponent_text (down n)), read_number_text n) refl
    by_parts false (up n) = rw (get-put d.digits (exponent_text (up n)), read_number_text n) refl
    by_parts false (down n) =
        rw (get-put d.digits (exponent_text (down n)), read_number_text n) refl

abbrev id_text : RequestId → String
id_text (from_header n) = put 0 (number_text n)
id_text (fresh n) = put 1 (number_text n)
id_text no_request_id = put 2 (number_text 0)

abbrev id_of : ℕ → ℕ → RequestId
id_of zero n = from_header n
id_of (suc zero) n = fresh n
id_of (suc (suc k)) n = no_request_id

abbrev read_id : String → Option RequestId
read_id s = do (tag, s1) ← get s; n ← read_number s1; some (id_of tag n)

pub read_id_text : (c : RequestId) → read_id (id_text c) ≡ some c
read_id_text (from_header n) = rw (read_number_text n) refl
read_id_text (fresh n) = rw (read_number_text n) refl
read_id_text no_request_id = refl

abbrev integer : Value → Option ℕ
integer (number n) = some n
integer _ = none

abbrev of_text : {A : Type 0} → (String → Option A) → Value → Option A
of_text read (string s) = read s
of_text read _ = none

abbrev rows : Formats
rows = record {
  read_number = integer;
  read_number_lem = λ n. refl;
  uuid_text = number_text;
  read_uuid = of_text read_number;
  read_uuid_lem = read_number_text;
  decimal_text = decimal_text;
  read_decimal = of_text read_decimal;
  read_decimal_lem = read_decimal_text;
  instant_text = number_text;
  read_instant = of_text read_number;
  read_instant_lem = read_number_text;
  id_text = id_text;
  read_id = of_text read_id;
  read_id_lem = λ c. (c, read_id_text c, refl);
}

abbrev any_decimal : FieldTest
any_decimal d = true

abbrev cents : Decimal
cents = record { negative = false; digits = 150; exponent = two_places }

abbrev message : EventFinishedMessage
message = record {
  schema_version = 1;
  event_id = 7;
  new_state = EventTerminalState.finished_lose;
  coefficient = cents;
  occurred_at = 12;
  correlation_id = no_request_id;
}

abbrev event : EventRead
event = record { event_id = 7; coefficient = cents; deadline = 20; state = EventState.new }

decode-encode_example :
    ((m' : EventFinishedMessage) × (decode_message rows any_decimal (encode_message rows message)
        ≡ some m')
      × IsSame rows message m')
    × (decode_message rows any_decimal (("odds", number 3) ∷ encode_message rows message) ≡ none)
    × (decode_event rows (encode_event rows event) ≡ some event)
    × (read_snapshot rows (encode_event rows event) ≡ parsed (snapshot_of event))
decode-encode_example =
    decode-encode rows any_decimal message event "odds" (number 3) (omega arith) refl refl
