-- ===== src/BetMaker/Tests/Sessions.antt =====
-- Two overlapping sessions: a delivery and a tick, on the same event.
use bsw.Common.{arith, ℕ, ◌≡◌, refl, false, none, some, List, [], ◌∷◌, contains}
use bsw.BetMaker.Exceptions.{returned}
use bsw.BetMaker.Models.{Bet, BetStatus, Via}
use bsw.BetMaker.Database.{Table, Weather}
use bsw.BetMaker.Reference.{reference, fair}
use bsw.BetMaker.Settle.{mark, get_pending_locked, update_marked}
use bsw.BetMaker.Settle.Frame.{Evolves}
use bsw.BetMaker.Interleaving.{
  Settling, Sessions, is_locked, taken, put, ended, select, commit, Reach, here, next, idle_on,
}
use bsw.BetMaker.Interleaving.Once.{Reach-Evolves, Reach-disjoint}
use bsw.BetMaker.Tests.{bet, table, table_unique}

-- The bets of event 7, and what is left for a session that finds them locked.
abbrev captured_bets : List Bet
captured_bets = bet 1 7 BetStatus.pending ∷ bet 3 7 BetStatus.pending ∷ []

abbrev winning : Settling
winning = record { event_id = 7; status = BetStatus.won; via = Via.consumer; bet_ids = 1 ∷ 3 ∷ [] }

abbrev late : Settling
late = record { event_id = 7; status = BetStatus.won; via = Via.reconciler; bet_ids = [] }

-- What the sessions see of the locks.
abbrev seen : Sessions → ℕ → Weather
seen d n = record (fair n) { locked = λ i. is_locked (d.owner i) }

abbrev first_selected : Sessions
first_selected = record (idle_on table) {
  owner = taken 0 (1 ∷ 3 ∷ []) (λ i. none);
  running = put 0 (some winning) (λ s. none);
}

abbrev both_selected : Sessions
both_selected = record first_selected {
  owner = taken 1 [] first_selected.owner;
  running = put 1 (some late) first_selected.running;
}

abbrev settled_rows : Table
settled_rows =
    mark BetStatus.won Via.consumer 10 (bet 1 7 BetStatus.pending)
    ∷ bet 2 8 BetStatus.pending
    ∷ mark BetStatus.won Via.consumer 10 (bet 3 7 BetStatus.pending)
    ∷ []

abbrev first_committed : Sessions
first_committed = record (ended 0 both_selected) { rows = settled_rows }

first_captures :
    get_pending_locked reference 7 (seen (idle_on table) 0) table ≡ (returned captured_bets, table)
unfolding get_pending_locked
first_captures = refl

second_captures :
    get_pending_locked reference 7 (seen first_selected 1) table ≡ (returned [], table)
unfolding get_pending_locked
second_captures = refl

first_updates :
    update_marked reference (1 ∷ 3 ∷ []) BetStatus.won Via.consumer (seen both_selected 0) table
    ≡ (returned tt, settled_rows)
unfolding update_marked
first_updates = refl

selecting : Reach reference (idle_on table) both_selected
selecting =
    next
      (next here (
        select (idle_on table) 0 7 BetStatus.won Via.consumer (seen (idle_on table) 0) captured_bets
          refl (λ i. refl) first_captures))
      (select first_selected 1 7 BetStatus.won Via.reconciler (seen first_selected 1) [] refl
        (λ i. refl) second_captures)

committing : Reach reference both_selected first_committed
committing =
    next here
      (commit both_selected 0 winning (seen both_selected 0) settled_rows refl first_updates)

Reach-Evolves_example : Evolves both_selected.rows first_committed.rows
Reach-Evolves_example = Reach-Evolves reference table table_unique selecting committing

Reach-disjoint_example : contains 3 late.bet_ids ≡ false
Reach-disjoint_example =
    Reach-disjoint reference table 0 1 3 winning late table_unique selecting refl refl (omega arith)
      refl
