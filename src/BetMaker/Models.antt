-- ===== src/BetMaker/Models.antt =====
-- src/bet_maker/models/bet.py and the data of src/bet_maker/schemas: a row of the table `bets`, what
-- the routes return, and the results of the interactors. The event states, the terminal states and
-- the message are those of src/line_provider/schemas, which the service repeats word for word.
use bsw.Common.{ℕ, Bool, true, false, Option, List, ◌==◌, ◌&&◌}
use bsw.Money.{Decimal}
use bsw.LineProvider.Schemas.{EventTerminalState}

pub data BetStatus : Type 0 where
  pending won lost cancelled : BetStatus

-- `settled_via`
pub data Via : Type 0 where
  consumer reconciler : Via

-- `Bet`
pub record Bet : Type 0 where
  pub id : ℕ
  pub event_id : ℕ
  pub amount : Decimal
  pub status : BetStatus
  pub created_at : ℕ
  pub updated_at : ℕ
  pub settled_at : Option ℕ
  pub settled_via : Option Via

pub record BetRead : Type 0 where
  pub id : ℕ
  pub event_id : ℕ
  pub amount : Decimal
  pub status : BetStatus
  pub created_at : ℕ

-- `BetRead.model_validate(row, from_attributes=True)`
abbrev pub to_bet_read : Bet → BetRead
to_bet_read b = record {
  id = b.id;
  event_id = b.event_id;
  amount = b.amount;
  status = b.status;
  created_at = b.created_at;
}

pub record SettleResult : Type 0 where
  pub event_id : ℕ
  pub terminal_state : EventTerminalState
  pub settled_count : ℕ
  pub settled_bet_ids : List ℕ
  pub settled_via : Via
  pub settled_at : ℕ

-- `cancelled_via` is always 'reconciler'.
pub record CancelResult : Type 0 where
  pub event_id : ℕ
  pub cancelled_count : ℕ
  pub cancelled_bet_ids : List ℕ
  pub cancelled_at : ℕ

-- `Bet.status == BetStatus.PENDING`
abbrev pub is_pending : Bet → Bool
is_pending b = elim b.status [ BetStatus.pending ↦ true | _ ↦ false ]

-- `Bet.event_id == event_id, Bet.status == BetStatus.PENDING`
abbrev pub is_open : ℕ → Bet → Bool
is_open event_id b = b.event_id == event_id && is_pending b
