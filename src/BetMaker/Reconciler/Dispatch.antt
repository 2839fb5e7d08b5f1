-- ===== src/BetMaker/Reconciler/Dispatch.antt =====
-- What `_reconcile_event` does to the table, and to one row of it.
use bsw.Common.{
  ℕ, ◌≡◌, ◌≢◌, refl, ap, true, false, Option, none, some, [], ◌∷◌, map, if◌then◌else◌, arith,
}
use bsw.LineProvider.Schemas.{EventState, EventTerminalState}
use bsw.BetMaker.Exceptions.{Outcome, returned, raised}
use bsw.BetMaker.Models.{Bet, BetStatus, Via, SettleResult, CancelResult, is_pending}
use bsw.BetMaker.Database.{Table, Weather, World}
use bsw.BetMaker.Database.Rows.{HasUniqueIds}
use bsw.BetMaker.Client.{EventSnapshot}
use bsw.BetMaker.Settle.{mark, terminal_to_status, settle_bets_for_event, cancel_bets_for_event}
use bsw.BetMaker.Settle.Flip.{
  is_free, flipped, IsFair, IsReturned, Flips-IsReturned, settle_bets_for_event-Flips,
  settle_bets_for_event-IsReturned, cancel_bets_for_event-Flips, cancel_bets_for_event-IsReturned,
}
use bsw.BetMaker.Settle.Frame.{Keeps}
use bsw.BetMaker.PlaceBet.{Env}
use bsw.BetMaker.Reconciler.{done, dispatch_snapshot}

-- What the reconciler makes of a bet whose event has this answer.
abbrev pub verdict : Option EventSnapshot → BetStatus
verdict none = BetStatus.cancelled
verdict (some s) = elim s.state [
  | EventState.finished_win ↦ BetStatus.won
  | EventState.finished_lose ↦ BetStatus.lost
  | EventState.new ↦ BetStatus.pending
]

-- The table after a dispatch: as it was for a NEW event, and otherwise with the open bets marked.
abbrev pub dispatched : Weather → ℕ → Option EventSnapshot → Table → Table
dispatched e j none t = flipped e j BetStatus.cancelled Via.reconciler t
dispatched e j (some s) t = elim s.state [
  | EventState.finished_win ↦ flipped e j BetStatus.won Via.reconciler t
  | EventState.finished_lose ↦ flipped e j BetStatus.lost Via.reconciler t
  | EventState.new ↦ t
]

-- The dispatch returned, with that table.
abbrev pub IsDispatched :
    Weather → ℕ → Option EventSnapshot → Table → Outcome (Unit {0}) × World → Type 0
IsDispatched e j found t o = (o.0 ≡ returned tt) × (o.1.table ≡ dispatched e j found t)

module _ (env : Env) (fair : (n : ℕ) → IsFair (env.weather n)) where
  done_returned :
      {A : Type 0} (t : Table) (o : Outcome A × World)
      → IsReturned o
      → o.1.table ≡ t
      → ((done o).0 ≡ returned tt) × ((done o).1.table ≡ t)
  done_returned t (returned r, w) h e = (refl, e)
  done_returned t (raised x, w) h e = absurd h

  settled :
      (j : ℕ) (terminal : EventTerminalState) (w : World)
      → HasUniqueIds w.table
      → let o = done (settle_bets_for_event env.pg env.weather j terminal Via.reconciler w) in
        (o.0 ≡ returned tt)
        × (o.1.table
            ≡ flipped (env.weather w.begun) j (terminal_to_status terminal) Via.reconciler w.table)
  settled j terminal w u =
      let o = settle_bets_for_event env.pg env.weather j terminal Via.reconciler w in
      let r =
        settle_bets_for_event-IsReturned env.pg env.weather j w (fair w.begun) terminal
          Via.reconciler in
      done_returned _ o r (
        Flips-IsReturned (λ (r : SettleResult). r.settled_bet_ids) (λ r. r.settled_count)
          (env.weather w.begun) j (terminal_to_status terminal) Via.reconciler w.table o
          (settle_bets_for_event-Flips env.pg env.weather j w u terminal Via.reconciler 0) r)

  cancelled :
      (j : ℕ) (w : World)
      → HasUniqueIds w.table
      → let o = done (cancel_bets_for_event env.pg env.weather j w) in
        (o.0 ≡ returned tt)
        × (o.1.table ≡ flipped (env.weather w.begun) j BetStatus.cancelled Via.reconciler w.table)
  cancelled j w u =
      let o = cancel_bets_for_event env.pg env.weather j w in
      let r = cancel_bets_for_event-IsReturned env.pg env.weather j w (fair w.begun) in
      done_returned _ o r (
        Flips-IsReturned (λ (r : CancelResult). r.cancelled_bet_ids) (λ r. r.cancelled_count)
          (env.weather w.begun) j BetStatus.cancelled Via.reconciler w.table o
          (cancel_bets_for_event-Flips env.pg env.weather j w u 0) r)

  dispatch_state :
      (st : EventState) (j : ℕ) (s : EventSnapshot) (w : World)
      → HasUniqueIds w.table
      → s.state ≡ st
      → IsDispatched (env.weather w.begun) j (some s) w.table (dispatch_snapshot env j (some s) w)
  unfolding dispatch_snapshot
  dispatch_state EventState.new j s w u e = rw e (refl, refl)
  dispatch_state EventState.finished_win j s w u e =
      rw e (settled j EventTerminalState.finished_win w u)
  dispatch_state EventState.finished_lose j s w u e =
      rw e (settled j EventTerminalState.finished_lose w u)

  pub dispatch_snapshot-IsDispatched :
      (j : ℕ) (found : Option EventSnapshot) (w : World)
      → HasUniqueIds w.table
      → IsDispatched (env.weather w.begun) j found w.table (dispatch_snapshot env j found w)
  dispatch_snapshot-IsDispatched j none w u = unfold dispatch_snapshot in cancelled j w u
  dispatch_snapshot-IsDispatched j (some s) w u = dispatch_state s.state j s w u refl

-- One row, before and after a dispatch on event `j`.
abbrev marked : Weather → ℕ → BetStatus → Bet → Bet
marked e j status c = if is_free e j c then mark status Via.reconciler e.now c else c

abbrev pub row_after : Weather → ℕ → Option EventSnapshot → Bet → Bet
row_after e j none c = marked e j BetStatus.cancelled c
row_after e j (some s) c = elim s.state [
  | EventState.finished_win ↦ marked e j BetStatus.won c
  | EventState.finished_lose ↦ marked e j BetStatus.lost c
  | EventState.new ↦ c
]

module _ (e : Weather) (fair : IsFair e) (j : ℕ) where
  pub row_after-other :
      (found : Option EventSnapshot) (c : Bet) → j ≢ c.event_id → row_after e j found c ≡ c
  row_after-other found c ne = ground arith

  pub row_after_final :
      (found : Option EventSnapshot) (c : Bet) → is_pending c ≡ false → row_after e j found c ≡ c
  row_after_final found c done = ground arith

  pub row_after-verdict :
      (found : Option EventSnapshot) (c : Bet)
      → j ≡ c.event_id
      → is_pending c ≡ true
      → (row_after e j found c).status ≡ verdict found
  unfolding mark
  row_after-verdict found c eq open_still = ground (arith, fair.unlocked c.id)

  pub row_after-Keeps : (found : Option EventSnapshot) (c : Bet) → Keeps c (row_after e j found c)
  unfolding mark
  row_after-Keeps found c = ground arith

  pub row_after-id : (found : Option EventSnapshot) (c : Bet) → (row_after e j found c).id ≡ c.id
  unfolding mark
  row_after-id found c = ground arith

  map_same : (t : Table) → t ≡ map (λ c. c) t
  map_same [] = refl
  map_same (c ∷ t) = ap (λ u. c ∷ u) (map_same t)

  dispatched_state-map :
      (st : EventState) (t : Table)
      → elim st [
        | EventState.finished_win ↦ flipped e j BetStatus.won Via.reconciler t
        | EventState.finished_lose ↦ flipped e j BetStatus.lost Via.reconciler t
        | EventState.new ↦ t
      ]
        ≡ map
            (λ c. elim st [
              | EventState.finished_win ↦ marked e j BetStatus.won c
              | EventState.finished_lose ↦ marked e j BetStatus.lost c
              | EventState.new ↦ c
            ])
            t
  dispatched_state-map EventState.new t = map_same t
  dispatched_state-map EventState.finished_win t = refl
  dispatched_state-map EventState.finished_lose t = refl

  pub dispatched-map :
      (found : Option EventSnapshot) (t : Table)
      → dispatched e j found t ≡ map (row_after e j found) t
  dispatched-map none t = refl
  dispatched-map (some s) t = dispatched_state-map s.state t
