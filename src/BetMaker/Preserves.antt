-- ===== src/BetMaker/Preserves.antt =====
-- What the services keep of the table: a predicate of the table that stands each marking they may
-- make stands their operations, whatever fails.
pub mod Reconciling
use bsw.Common.{
  ℕ, ◌+◌, ◌≡◌, inl, inr, refl, ap, ◌∙◌, Bool, true, false, Option, none, some, List, [], ◌∷◌, All,
  if◌then◌else◌, arith, Bool-cases, ◌==◌, ==_iff, contains,
}
use bsw.Money.{Decimal, quantize_amount}
use bsw.LineProvider.Schemas.{EventTerminalState, EventFinishedMessage}
use bsw.BetMaker.Exceptions.{Exn, Outcome, returned, raised, is_transient, retry_rule}
use bsw.BetMaker.Models.{Bet, BetRead, BetStatus, Via, SettleResult, CancelResult, is_open}
use bsw.BetMaker.Database.{Table, Weather, World}
use bsw.BetMaker.Database.Rows.{HasUniqueIds, ids}
use bsw.BetMaker.Client.{EventSnapshot, get_event}
use bsw.BetMaker.Settle.{mark, terminal_to_status, settle_bets_for_event, cancel_bets_for_event}
use bsw.BetMaker.Settle.Flip.{
  is_free, flipped, Flips, settle_bets_for_event-Flips, cancel_bets_for_event-Flips,
}
use bsw.BetMaker.Settle.Frame.{flipped-HasUniqueIds}
use bsw.BetMaker.PlaceBet.{Env, new_bet, place_bet}
use bsw.BetMaker.PlaceBet.Acceptance.{Places, Stored, place_bet-Places}
use bsw.BetMaker.Consumer.{Payload, settle_with_retry, acknowledge, on_event_finished}

-- The predicate of tables stands the marking of the event's open bets with this status.
pub record Stands (H : Table → Type 0) (event_id : ℕ) (status : BetStatus) : Type 0 where
  pub marked : (e : Weather) (via : Via) (t : Table) → H t → H (flipped e event_id status via t)

-- The table has the predicate, and its ids are unique.
pub record Holds (H : Table → Type 0) (t : Table) : Type 0 where
  pub unique : HasUniqueIds t
  pub kept : H t

-- A predicate of rows, where each single marking stands.
pub flipped-All :
    (P : Bet → Type 0) (event_id : ℕ) (status : BetStatus)
    → ((b : Bet) (via : Via) (now : ℕ) → b.event_id ≡ event_id → P b → P (mark status via now b))
    → (e : Weather) (via : Via) (t : Table) → All P t
    → All P (flipped e event_id status via t)
flipped-All P event_id status s e via [] h = tt
flipped-All P event_id status s e via (b ∷ t) h = elim (Bool-cases (is_free e event_id b)) [
  | inl free ↦
      (rw free (s b via e.now (ground arith) h.0), flipped-All P event_id status s e via t h.1)
  | inr other ↦ (rw other h.0, flipped-All P event_id status s e via t h.1)
]

module _ (H : Table → Type 0) where
  flipped-Holds :
      (e : Weather) (event_id : ℕ) (status : BetStatus) (via : Via) (t : Table)
      → Stands H event_id status
      → Holds H t
      → Holds H (flipped e event_id status via t)
  flipped-Holds e event_id status via t s h = record {
    unique = flipped-HasUniqueIds e event_id status via t h.unique;
    kept = s.marked e via t h.kept;
  }

  Flips-Holds :
      {A : Type 0} (ids_of : A → List ℕ) (count_of : A → ℕ) (e : Weather) (event_id : ℕ)
      (status : BetStatus) (via : Via) (t : Table) (o : Outcome A × World)
      → Flips 0 ids_of count_of e event_id status via t o
      → Stands H event_id status
      → Holds H t
      → Holds H o.1.table
  Flips-Holds ids_of count_of e event_id status via t (returned r, w') f s h =
      rw f.0 (flipped-Holds e event_id status via t s h)
  Flips-Holds ids_of count_of e event_id status via t (raised x, w') (inl same) s h = rw same h
  Flips-Holds ids_of count_of e event_id status via t (raised x, w') (inr lost) s h =
      rw lost.1 (flipped-Holds e event_id status via t s h)

  module _ (env : Env) where
    pub settle_bets_for_event-Holds :
        (event_id : ℕ) (terminal : EventTerminalState) (via : Via) (w : World)
        → Stands H event_id (terminal_to_status terminal)
        → Holds H w.table
        → Holds H (settle_bets_for_event env.pg env.weather event_id terminal via w).1.table
    settle_bets_for_event-Holds event_id terminal via w s h =
        Flips-Holds (λ (r : SettleResult). r.settled_bet_ids) (λ r. r.settled_count)
          (env.weather w.begun) event_id (terminal_to_status terminal) via w.table _
          (settle_bets_for_event-Flips env.pg env.weather event_id w h.unique terminal via 0) s h

    pub cancel_bets_for_event-Holds :
        (event_id : ℕ) (w : World)
        → Stands H event_id BetStatus.cancelled
        → Holds H w.table
        → Holds H (cancel_bets_for_event env.pg env.weather event_id w).1.table
    cancel_bets_for_event-Holds event_id w s h =
        Flips-Holds (λ (r : CancelResult). r.cancelled_bet_ids) (λ r. r.cancelled_count)
          (env.weather w.begun) event_id BetStatus.cancelled Via.reconciler w.table _
          (cancel_bets_for_event-Flips env.pg env.weather event_id w h.unique 0) s h

    -- The consumer, on a message whose marking stands.
    pub on_event_finished-Holds :
        (message : EventFinishedMessage) (w : World)
        → Stands H message.event_id (terminal_to_status message.new_state)
        → Holds H w.table
        → Holds H (on_event_finished env (some message) w).1.table
    unfolding on_event_finished settle_with_retry
    on_event_finished-Holds message w s h = elim (Bool-cases (message.schema_version == 1)) [
      | inl v ↦
          let call =
            settle_bets_for_event env.pg env.weather message.event_id message.new_state
              Via.consumer in
          rw (on_event_finished, v)
            (retry_rule env.tenacity is_transient call (λ (v : World). Holds H v.table)
              (λ (o : Outcome SettleResult × World). Holds H o.1.table)
              (λ v k.
                let k' =
                  settle_bets_for_event-Holds message.event_id message.new_state Via.consumer v s
                    k in
                (k', k'))
              2 w h)
      | inr other ↦ rw (on_event_finished, other) h
    ]

    -- A table stands a new bet under a fresh id.
    module _
        (fresh : (e : Weather) (event_id : ℕ) (amount : Decimal) (t : Table)
          → contains e.uuid (ids t) ≡ false
          → H t
          → H (new_bet e event_id amount ∷ t)) where
      Stored-Holds :
          (e : Weather) (event_id : ℕ) (stake : Option Decimal) (t : Table)
          (o : Outcome BetRead × World)
          → Stored e event_id stake t o
          → Holds H t
          → Holds H o.1.table
      Stored-Holds e event_id none t (returned r, w') st h = absurd st
      Stored-Holds e event_id none t (raised x, w') st h = rw st h
      Stored-Holds e event_id (some stake) t (returned r, w') st h =
          rw st.0 record { unique = (st.2, h.unique); kept = fresh e event_id stake t st.2 h.kept }
      Stored-Holds e event_id (some stake) t (raised x, w') (inl same) h = rw same h
      Stored-Holds e event_id (some stake) t (raised x, w') (inr st) h =
          rw st.1 record { unique = (st.2, h.unique); kept = fresh e event_id stake t st.2 h.kept }

      Places-Holds :
          (now event_id : ℕ) (amount : Decimal) (w : World) (found : Outcome (Option EventSnapshot))
          (o : Outcome BetRead × World)
          → Places env now event_id amount w found o
          → Holds H w.table
          → Holds H o.1.table
      Places-Holds now event_id amount w (raised x) o p h = rw p.1 h
      Places-Holds now event_id amount w (returned found) o (inl p) h = rw p.3 h
      Places-Holds now event_id amount w (returned found) o (inr p) h =
          Stored-Holds (env.weather w.begun) event_id (quantize_amount amount) w.table o p.1 h

      pub place_bet-Holds :
          (attempts now event_id : ℕ) (amount : Decimal) (w : World)
          → Holds H w.table
          → Holds H (place_bet env attempts now event_id amount w).1.table
      place_bet-Holds attempts now event_id amount w h =
          Places-Holds now event_id amount w
            (get_event env.tenacity env.http attempts event_id w.requests).0
            (place_bet env attempts now event_id amount w)
            (place_bet-Places env attempts now event_id amount w) h
