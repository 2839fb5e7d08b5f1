-- ===== src/BetMaker/Tests.antt =====
-- Runs of the interactors on the reference database, and the theorems about them there.
pub mod Services
mod Operations
mod Sessions
use bsw.Common.{ℕ, refl, false, none, [], ◌∷◌}
use bsw.Money.{two_places}
use bsw.LineProvider.Schemas.{EventTerminalState}
use bsw.BetMaker.Models.{Bet, BetStatus, Via, SettleResult, CancelResult}
use bsw.BetMaker.Database.{World, Table}
use bsw.BetMaker.Database.Rows.{HasUniqueIds}
use bsw.BetMaker.Reference.{reference, fair}
use bsw.BetMaker.Settle.{settle_bets_for_event, cancel_bets_for_event}
use bsw.BetMaker.Settle.Flip.{Flips, settle_bets_for_event-Flips, cancel_bets_for_event-Flips}

abbrev pub bet : ℕ → ℕ → BetStatus → Bet
bet i event_id status = record {
  id = i;
  event_id = event_id;
  amount = record { negative = false; digits = 1000; exponent = two_places };
  status = status;
  created_at = i;
  updated_at = i;
  settled_at = none;
  settled_via = none;
}

abbrev pub table : Table
table = bet 1 7 BetStatus.pending ∷ bet 2 8 BetStatus.pending ∷ bet 3 7 BetStatus.pending ∷ []

abbrev pub world : World
world = record { table = table; begun = 0; requests = 0 }

-- The ids of the table are unique.
pub table_unique : HasUniqueIds table
table_unique = (refl, (refl, (refl, tt)))

settle_bets_for_event-Flips_example :
    Flips 1
      (λ (r : SettleResult). r.settled_bet_ids)
      (λ r. r.settled_count)
      (fair 0)
      7
      BetStatus.won
      Via.consumer
      table
      (settle_bets_for_event reference fair 7 EventTerminalState.finished_win Via.consumer world)
settle_bets_for_event-Flips_example =
    settle_bets_for_event-Flips reference fair 7 world table_unique EventTerminalState.finished_win
      Via.consumer 1

cancel_bets_for_event-Flips_example :
    Flips 3
      (λ (r : CancelResult). r.cancelled_bet_ids)
      (λ r. r.cancelled_count)
      (fair 0)
      7
      BetStatus.cancelled
      Via.reconciler
      table
      (cancel_bets_for_event reference fair 7 world)
cancel_bets_for_event-Flips_example =
    cancel_bets_for_event-Flips reference fair 7 world table_unique 3
