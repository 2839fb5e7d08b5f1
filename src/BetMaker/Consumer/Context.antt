-- ===== src/BetMaker/Consumer/Context.antt =====
-- The structlog context that src/bet_maker/api/messaging.py binds around a delivery.
use bsw.Common.{ℕ, Option, none, some}
use bsw.LineProvider.Schemas.{EventFinishedMessage, RequestId}
use bsw.BetMaker.Database.{World}
use bsw.BetMaker.PlaceBet.{Env}
use bsw.BetMaker.Consumer.{Fate, Payload, on_event_finished}

-- What is bound in the task that handles a delivery; earlier code may have left anything.
pub record LogContext : Type 0 where
  pub request_id : Option RequestId
  pub message_id : Option ℕ
  pub correlation_id : Option RequestId
  pub event_id : Option ℕ

-- The properties of a `RabbitMessage` that the handler reads.
pub record RabbitMessage : Type 0 where
  pub message_id : ℕ
  pub correlation_id : RequestId

-- `clear_contextvars()`
abbrev pub clear_contextvars : LogContext → LogContext
clear_contextvars c = record {
  request_id = none;
  message_id = none;
  correlation_id = none;
  event_id = none;
}

-- `bind_contextvars(message_id=…, correlation_id=…, event_id=…)`
abbrev pub bind_delivery : RabbitMessage → EventFinishedMessage → LogContext → LogContext
bind_delivery msg message c = record c {
  message_id = some msg.message_id;
  correlation_id = some msg.correlation_id;
  event_id = some message.event_id;
}

-- A delivery: what its logs carry from the validation on, what is bound when it is over, its fate and
-- the world.
pub record Handled : Type 0 where
  pub during : LogContext
  pub after : LogContext
  pub fate : Fate
  pub world : World

-- `on_event_finished` with its context; a payload that is no message raises before anything is bound.
unfoldable pub handle : Env → Payload → RabbitMessage → LogContext → World → Handled
unfolding on_event_finished
handle env payload msg c w =
    let cleared = clear_contextvars c in
    let bound : LogContext = elim payload [
      | none ↦ cleared
      | some message ↦ bind_delivery msg message cleared
    ] in
    let (fate, w') = on_event_finished env payload w in
    record { during = bound; after = clear_contextvars bound; fate = fate; world = w' }
