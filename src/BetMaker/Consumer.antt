-- ===== src/BetMaker/Consumer.antt =====
-- src/bet_maker/api/messaging.py: the consumer of `bet_maker.events.finished`, with manual
-- acknowledgement.
pub mod Delivery
pub mod Context
use bsw.Common.{ℕ, Bool, true, false, Option, none, some, ◌==◌, if◌then◌else◌}
use bsw.LineProvider.Schemas.{EventFinishedMessage, EventTerminalState}
use bsw.BetMaker.Exceptions.{
  Exn, Outcome, returned, raised, is_exception, is_transient, cancelled_error,
}
use bsw.BetMaker.Models.{SettleResult, Via}
use bsw.BetMaker.Database.{World}
use bsw.BetMaker.Settle.{settle_bets_for_event}
use bsw.BetMaker.PlaceBet.{Env}

-- What becomes of a delivery: acknowledged; rejected without requeue, to the dead-letter queue; or
-- neither, when a CancelledError leaves the handler.
pub data Fate : Type 0 where
  acked rejected left : Fate

-- The message as `EventFinishedMessage.model_validate` reads the payload; `none` is a ValidationError.
abbrev pub Payload : Type 0
Payload = Option EventFinishedMessage

-- `_settle_with_retry`: three attempts.
unfoldable pub settle_with_retry :
    Env → ℕ → EventTerminalState → World → Outcome SettleResult × World
unfolding settle_bets_for_event is_transient
settle_with_retry env event_id terminal_state w =
    env.tenacity.retry 3 is_transient
      (settle_bets_for_event env.pg env.weather event_id terminal_state Via.consumer) w

-- The two `except` clauses both reject; a CancelledError passes them.
abbrev pub acknowledge : Outcome SettleResult → Fate
acknowledge (returned r) = acked
acknowledge (raised x) = if is_exception x then rejected else left

-- `on_event_finished`
unfoldable pub on_event_finished : Env → Payload → World → Fate × World
unfolding settle_with_retry
on_event_finished env none w = (rejected, w)
on_event_finished env (some message) w =
    if message.schema_version == 1
    then (let (o, w') = settle_with_retry env message.event_id message.new_state w in
        (acknowledge o, w'))
    else (rejected, w)
