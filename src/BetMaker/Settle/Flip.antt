-- ===== src/BetMaker/Settle/Flip.antt =====
-- What settling and cancelling do to the table, on every branch and at every point of failure.
use bsw.Common.{
  none, false, ℕ, ◌≡◌, ◌⊎◌, Bool, not, ◌&&◌, some, List, map, length, count, length-filter,
  contains, filter, if◌then◌else◌, arith,
}
use bsw.LineProvider.Schemas.{EventTerminalState}
use bsw.BetMaker.Models.{Bet, BetStatus, Via, SettleResult, CancelResult, is_open}
use bsw.BetMaker.Exceptions.{Outcome, returned, raised}
use bsw.BetMaker.Database.{
  Postgres, Table, Weather, World, after_commit, at_begin, at_commit, at_select, at_write,
}
use bsw.BetMaker.Database.Rows.{
  ids, HasUniqueIds, contains-perm, length-perm, length-ids, map-ids, map_none,
}
use bsw.BetMaker.Settle.{mark, terminal_to_status, settle_bets_for_event, cancel_bets_for_event}

-- The PENDING bets of the event that no other transaction holds locked.
abbrev pub is_free : Weather → ℕ → Bet → Bool
is_free e event_id b = is_open event_id b && not (e.locked b.id)

-- Those rows marked, and every other row as it was.
abbrev pub flipped : Weather → ℕ → BetStatus → Via → Table → Table
flipped e event_id status via t =
    map (λ b. if is_free e event_id b then mark status via e.now b else b) t

-- How a call on `event_id` may end. It returns with the rows flipped, and their number and ids; or it
-- raises with the table unchanged; or the connection was lost after the commit, and they are flipped.
abbrev pub Flips :
    {A : Type 0}
    → ℕ
    → (A → List ℕ)
    → (A → ℕ)
    → Weather
    → ℕ
    → BetStatus
    → Via
    → Table
    → Outcome A × World
    → Type 0
Flips i ids_of count_of e event_id status via t (returned r, w') =
    (w'.table ≡ flipped e event_id status via t)
    × (count_of r ≡ count (is_free e event_id) t)
    × (length (ids_of r) ≡ count_of r)
    × (contains i (ids_of r) ≡ contains i (ids (filter (is_free e event_id) t)))
Flips i ids_of count_of e event_id status via t (raised x, w') =
    (w'.table ≡ t)
    ⊎ ((e.fails after_commit ≡ some x) × (w'.table ≡ flipped e event_id status via t))

module _ (pg : Postgres) (weather : ℕ → Weather) (event_id : ℕ) (w : World)
    (u : HasUniqueIds w.table) where
  -- What others hold locked, and the rows that the SELECT returns.
  abbrev e : Weather
  e = weather w.begun

  abbrev selected : List Bet
  selected = pg.select_skip_locked e.locked (is_open event_id) w.table

  selected-length : length selected ≡ count (is_free e event_id) w.table
  selected-length =
      rw (length-perm (pg.select_skip_locked_lem e.locked (is_open event_id) w.table))
        (length-filter (is_free e event_id) w.table)

  nothing_selected :
      (status : BetStatus) (via : Via)
      → length selected ≡ 0
      → flipped e event_id status via w.table ≡ w.table
  nothing_selected status via h =
      map_none (is_free e event_id) (mark status via e.now) w.table
        (rw (← length-perm (pg.select_skip_locked_lem e.locked (is_open event_id) w.table)) h)

  some_selected :
      (status : BetStatus) (via : Via)
      → pg.update (λ b. contains b.id (ids selected)) (mark status via e.now) w.table
        ≡ flipped e event_id status via w.table
  some_selected status via = rw pg.update_lem (
      map-ids (is_free e event_id) (mark status via e.now) selected w.table u
        (pg.select_skip_locked_lem e.locked (is_open event_id) w.table))

  selected-contains :
      (i : ℕ) → contains i (ids selected) ≡ contains i (ids (filter (is_free e event_id) w.table))
  selected-contains i =
      contains-perm i (pg.select_skip_locked_lem e.locked (is_open event_id) w.table)

  -- However the call goes and wherever the transaction fails, `settle_bets_for_event` marks exactly the
  -- PENDING bets of the event that are not locked, as WON or LOST, and returns their number and
  -- their ids; or it raises and nothing has changed; or the connection was lost after the commit and
  -- exactly those bets are marked. Ids are unique in the table.
  pub settle_bets_for_event-Flips :
      (terminal : EventTerminalState) (via : Via) (i : ℕ)
      → Flips i
          (λ (r : SettleResult). r.settled_bet_ids)
          (λ r. r.settled_count)
          e
          event_id
          (terminal_to_status terminal)
          via
          w.table
          (settle_bets_for_event pg weather event_id terminal via w)
  unfolding settle_bets_for_event
  settle_bets_for_event-Flips terminal via i = ground (
    arith,
    selected-length,
    selected-contains i,
    length-ids selected,
    nothing_selected (terminal_to_status terminal) via,
    some_selected (terminal_to_status terminal) via,
  )

  -- The same for `cancel_bets_for_event`, which marks the bets CANCELLED by the reconciler.
  pub cancel_bets_for_event-Flips :
      (i : ℕ)
      → Flips i
          (λ (r : CancelResult). r.cancelled_bet_ids)
          (λ r. r.cancelled_count)
          e
          event_id
          BetStatus.cancelled
          Via.reconciler
          w.table
          (cancel_bets_for_event pg weather event_id w)
  unfolding cancel_bets_for_event
  cancel_bets_for_event-Flips i = ground (
    arith,
    selected-length,
    selected-contains i,
    length-ids selected,
    nothing_selected BetStatus.cancelled Via.reconciler,
    some_selected BetStatus.cancelled Via.reconciler,
  )

-- A transaction that meets no failure and no lock.
pub record IsFair (e : Weather) : Type 0 where
  pub begins : e.fails at_begin ≡ none
  pub selects : e.fails at_select ≡ none
  pub writes : e.fails at_write ≡ none
  pub commits : e.fails at_commit ≡ none
  pub confirms : e.fails after_commit ≡ none
  pub unlocked : (i : ℕ) → e.locked i ≡ false

abbrev pub IsReturned : {A : Type 0} → Outcome A × World → Type 0
IsReturned (returned r, w') = Unit
IsReturned (raised x, w') = ⊥

module _ (pg : Postgres) (weather : ℕ → Weather) (event_id : ℕ) (w : World)
    (fair : IsFair (weather w.begun)) where
  pub settle_bets_for_event-IsReturned :
      (terminal : EventTerminalState) (via : Via)
      → IsReturned (settle_bets_for_event pg weather event_id terminal via w)
  unfolding settle_bets_for_event
  settle_bets_for_event-IsReturned terminal via =
      ground (arith, fair.begins, fair.selects, fair.writes, fair.commits, fair.confirms)

  pub cancel_bets_for_event-IsReturned : IsReturned (cancel_bets_for_event pg weather event_id w)
  unfolding cancel_bets_for_event
  cancel_bets_for_event-IsReturned =
      ground (arith, fair.begins, fair.selects, fair.writes, fair.commits, fair.confirms)

pub Flips-IsReturned :
    {A : Type 0} (ids_of : A → List ℕ) (count_of : A → ℕ) (e : Weather) (event_id : ℕ)
    (status : BetStatus) (via : Via) (t : Table) (o : Outcome A × World)
    → Flips 0 ids_of count_of e event_id status via t o
    → IsReturned o
    → o.1.table ≡ flipped e event_id status via t
Flips-IsReturned ids_of count_of e event_id status via t (returned r, w') f h = f.0
Flips-IsReturned ids_of count_of e event_id status via t (raised x, w') f h = absurd h
