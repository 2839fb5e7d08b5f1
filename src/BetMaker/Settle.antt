-- ===== src/BetMaker/Settle.antt =====
-- src/bet_maker/interactors/settle_bets_for_event.py and cancel_bets_for_event.py, with the selector
-- get_pending_locked.py that both use.
pub mod Flip
pub mod Frame
use bsw.Common.{
  ℕ, Bool, true, false, Option, none, some, List, [], ◌∷◌, map, length, contains, if◌then◌else◌,
}
use bsw.LineProvider.Schemas.{EventTerminalState}
use bsw.BetMaker.Models.{Bet, BetStatus, Via, SettleResult, CancelResult, is_open}
use bsw.BetMaker.Exceptions.{Exn, Outcome}
use bsw.BetMaker.Database.{
  Postgres, Table, Weather, World, Point, at_select, at_write, Tx, ◌>>=◌, ◌>>◌, pure, asks,
  statement, with_uow,
}
use bsw.BetMaker.Database.Rows.{ids}

-- `_TERMINAL_TO_STATUS`, which has every terminal state
abbrev pub terminal_to_status : EventTerminalState → BetStatus
terminal_to_status EventTerminalState.finished_win = BetStatus.won
terminal_to_status EventTerminalState.finished_lose = BetStatus.lost

-- `.values(status=…, settled_at=func.now(), settled_via=…)`; `updated_at` has `onupdate=func.now()`.
unfoldable pub mark : BetStatus → Via → ℕ → Bet → Bet
mark status via now b = record b {
  status = status;
  settled_at = some now;
  settled_via = some via;
  updated_at = now;
}

unfoldable pub get_pending_locked : Postgres → ℕ → Tx (List Bet)
get_pending_locked pg event_id =
    statement at_select (λ e t. (pg.select_skip_locked e.locked (is_open event_id) t, t))

-- `update(Bet).where(Bet.id.in_(bet_ids)).values(…)`
unfoldable pub update_marked : Postgres → List ℕ → BetStatus → Via → Tx Unit
unfolding mark
update_marked pg bet_ids status via =
    statement at_write
      (λ e t. (tt, pg.update (λ b. contains b.id bet_ids) (mark status via e.now) t))

-- The result of a call that found nothing, and of one that settled the rows.
abbrev pub settle_result : ℕ → EventTerminalState → Via → ℕ → List ℕ → SettleResult
settle_result event_id terminal_state via settled_at bet_ids = record {
  event_id = event_id;
  terminal_state = terminal_state;
  settled_count = length bet_ids;
  settled_bet_ids = bet_ids;
  settled_via = via;
  settled_at = settled_at;
}

abbrev pub cancel_result : ℕ → ℕ → List ℕ → CancelResult
cancel_result event_id cancelled_at bet_ids = record {
  event_id = event_id;
  cancelled_count = length bet_ids;
  cancelled_bet_ids = bet_ids;
  cancelled_at = cancelled_at;
}

-- `if not bets: return …`, then the update of the captured ids
abbrev pub settle_found : Postgres → ℕ → EventTerminalState → Via → ℕ → List Bet → Tx SettleResult
settle_found pg event_id terminal_state via settled_at [] =
    pure (settle_result event_id terminal_state via settled_at [])
settle_found pg event_id terminal_state via settled_at (b ∷ bs) = do
  let bet_ids = ids (b ∷ bs)
  update_marked pg bet_ids (terminal_to_status terminal_state) via
  pure (settle_result event_id terminal_state via settled_at bet_ids)

unfoldable pub settle_bets_for_event :
    Postgres → (ℕ → Weather) → ℕ → EventTerminalState → Via → World → Outcome SettleResult × World
unfolding get_pending_locked update_marked with_uow
settle_bets_for_event pg weather event_id terminal_state settled_via = with_uow weather do
  bets ← get_pending_locked pg event_id
  settled_at ← asks (λ e. e.clock)
  settle_found pg event_id terminal_state settled_via settled_at bets

abbrev pub cancel_found : Postgres → ℕ → ℕ → List Bet → Tx CancelResult
cancel_found pg event_id cancelled_at [] = pure (cancel_result event_id cancelled_at [])
cancel_found pg event_id cancelled_at (b ∷ bs) = do
  let bet_ids = ids (b ∷ bs)
  update_marked pg bet_ids BetStatus.cancelled Via.reconciler
  pure (cancel_result event_id cancelled_at bet_ids)

unfoldable pub cancel_bets_for_event :
    Postgres → (ℕ → Weather) → ℕ → World → Outcome CancelResult × World
unfolding get_pending_locked update_marked with_uow
cancel_bets_for_event pg weather event_id = with_uow weather do
  cancelled_at ← asks (λ e. e.clock)
  bets ← get_pending_locked pg event_id
  cancel_found pg event_id cancelled_at bets
