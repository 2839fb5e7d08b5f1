-- ===== src/Messaging/Wire/RoundTrip.antt =====
-- What bet-maker reads of what line-provider writes.
use Prim.Native.String.{String}
use text.Mathlib.Text.{◌==◌ as str_eq}
use bsw.Common.{any, false, none, ◌∷◌, ◌≡◌, ◌≤◌, refl, true, some, leb, arith}
use bsw.LineProvider.Schemas.{
  EventState, EventTerminalState, EventRead, EventFinishedMessage, FieldTest,
}
use bsw.BetMaker.Client.{parsed}
use bsw.System.{snapshot_of}
use bsw.Messaging.Wire.{
  Formats, terminal_text, read_terminal, state_text, read_state, encode_message, decode_message,
  encode_event, decode_event, read_snapshot, Value, Object, message_fields,
}

read_terminal_text : (t : EventTerminalState) → read_terminal (terminal_text t) ≡ some t
read_terminal_text EventTerminalState.finished_win = refl
read_terminal_text EventTerminalState.finished_lose = refl

read_state_text : (s : EventState) → read_state (state_text s) ≡ some s
read_state_text EventState.new = refl
read_state_text EventState.finished_win = refl
read_state_text EventState.finished_lose = refl

module _ (f : Formats) where
  -- The message read is the one that was written, its correlation id up to the text of it.
  pub record IsSame (m m' : EventFinishedMessage) : Type 0 where
    pub fields : m' ≡ record m { correlation_id = m'.correlation_id }
    pub correlation : f.id_text m'.correlation_id ≡ f.id_text m.correlation_id

  message_read :
      (field : FieldTest) (m : EventFinishedMessage)
      → 1 ≤ m.schema_version
      → field m.coefficient ≡ true
      → (m' : EventFinishedMessage) × (decode_message f field (encode_message f m) ≡ some m')
        × IsSame m m'
  unfolding decode_message encode_message
  message_read field m version test =
      let fresh : leb 1 m.schema_version ≡ true = ground arith in
      let (c, read, same) = f.read_id_lem m.correlation_id in
      (
        record m { correlation_id = c },
        rw
            (
              decode_message,
              encode_message,
              f.read_number_lem,
              fresh,
              f.read_uuid_lem,
              read_terminal_text m.new_state,
              f.read_decimal_lem,
              test,
              f.read_instant_lem,
              read,
            )
            refl,
        record { fields = refl; correlation = same },
      )

  event_read : (e : EventRead) → decode_event f (encode_event f e) ≡ some e
  unfolding decode_event encode_event
  event_read e =
      rw (f.read_uuid_lem, f.read_decimal_lem, f.read_instant_lem, read_state_text e.state) refl

  snapshot_read : (e : EventRead) → read_snapshot f (encode_event f e) ≡ parsed (snapshot_of e)
  unfolding read_snapshot encode_event
  snapshot_read e = rw (f.read_uuid_lem, f.read_instant_lem, read_state_text e.state) refl

  unknown_refused :
      (field : FieldTest) (k : String) (v : Value) (o : Object)
      → any (str_eq k) message_fields ≡ false
      → decode_message f field ((k, v) ∷ o) ≡ none
  unfolding decode_message
  unknown_refused field k v o unknown = rw (decode_message, unknown) refl

  -- A message that passes the tests of its fields is read by bet-maker as line-provider wrote it, its
  -- correlation id up to the text of it, and is refused if a field is added that its schema does not
  -- have; and an event that line-provider answers with is read as it was written, by GET /events whole
  -- and by the lookup as its snapshot.
  pub decode-encode :
      (field : FieldTest) (m : EventFinishedMessage) (e : EventRead) (k : String) (v : Value)
      → 1 ≤ m.schema_version
      → field m.coefficient ≡ true
      → any (str_eq k) message_fields ≡ false
      → ((m' : EventFinishedMessage) × (decode_message f field (encode_message f m) ≡ some m')
          × IsSame m m')
        × (decode_message f field ((k, v) ∷ encode_message f m) ≡ none)
        × (decode_event f (encode_event f e) ≡ some e)
        × (read_snapshot f (encode_event f e) ≡ parsed (snapshot_of e))
  decode-encode field m e k v version test unknown = (
    message_read field m version test,
    unknown_refused field k v (encode_message f m) unknown,
    event_read e,
    snapshot_read e,
  )
