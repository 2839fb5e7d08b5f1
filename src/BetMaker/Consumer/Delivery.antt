-- ===== src/BetMaker/Consumer/Delivery.antt =====
-- What a delivery does to the table, and when it is acknowledged.
use bsw.Common.{
  ℕ, zero, suc, ◌+◌, ◌≡◌, ◌≢◌, ◌≤◌, inl, inr, refl, ◌∙◌, true, false, none, some, count, arith,
  Bool-cases, ◌==◌, ==_iff,
}
use bsw.LineProvider.Schemas.{EventFinishedMessage, EventTerminalState}
use bsw.BetMaker.Exceptions.{Exn, Outcome, returned, raised, is_exception, is_transient, retry_rule}
use bsw.BetMaker.Models.{BetStatus, Via, SettleResult, is_open}
use bsw.BetMaker.Database.{Table, Weather, World, at_begin}
use bsw.BetMaker.Database.Rows.{HasUniqueIds}
use bsw.BetMaker.Settle.{terminal_to_status, settle_bets_for_event}
use bsw.BetMaker.Settle.Flip.{
  Flips, IsFair, IsReturned, settle_bets_for_event-Flips, settle_bets_for_event-IsReturned,
}
use bsw.BetMaker.Settle.Frame.{
  Evolves, Evolves-refl, Evolves-trans, Flips-Evolves, Flips-idle, flipped-settles,
}
use bsw.BetMaker.PlaceBet.{Env}
use bsw.BetMaker.Consumer.{
  Fate, acked, rejected, left, Payload, settle_with_retry, acknowledge, on_event_finished,
}

some_inj : {A : Type 0} {a b : A} → some a ≡ some b → a ≡ b
some_inj e = cc

returned_of :
    {A : Type 0} (o : Outcome A × World)
    → IsReturned o
    → (a : A) × (w' : World) × (o ≡ (returned a, w'))
returned_of (returned a, w') h = (a, w', refl)
returned_of (raised x, w') h = absurd h

module _ (env : Env) where
  settle_step :
      (event_id : ℕ) (terminal : EventTerminalState) (w : World)
      → HasUniqueIds w.table
      → Flips 0
          (λ (r : SettleResult). r.settled_bet_ids)
          (λ r. r.settled_count)
          (env.weather w.begun)
          event_id
          (terminal_to_status terminal)
          Via.consumer
          w.table
          (settle_bets_for_event env.pg env.weather event_id terminal Via.consumer w)
  settle_step event_id terminal w u =
      settle_bets_for_event-Flips env.pg env.weather event_id w u terminal Via.consumer 0

  -- An outcome of the settling: a normal one leaves no bet of the event PENDING.
  abbrev Settled : ℕ → Outcome SettleResult × World → Type 0
  Settled event_id (returned r, w') = count (is_open event_id) w'.table ≡ 0
  Settled event_id (raised x, w') = Unit

  terminal_final : (terminal : EventTerminalState) → terminal_to_status terminal ≢ BetStatus.pending
  terminal_final terminal = ground arith

  module _ (free : (n i : ℕ) → (env.weather n).locked i ≡ false) where
    Flips-Settled :
        (event_id : ℕ) (terminal : EventTerminalState) (e : Weather) (t : Table)
        (o : Outcome SettleResult × World)
        → ((i : ℕ) → e.locked i ≡ false)
        → Flips 0
            (λ (r : SettleResult). r.settled_bet_ids)
            (λ r. r.settled_count)
            e
            event_id
            (terminal_to_status terminal)
            Via.consumer
            t
            o
        → Settled event_id o
    Flips-Settled event_id terminal e t (returned r, w') f h = rw h.0 (
        flipped-settles e event_id (terminal_to_status terminal) Via.consumer
          (terminal_final terminal) f t)
    Flips-Settled event_id terminal e t (raised x, w') f h = tt

    settle_with_retry-Settled :
        (event_id : ℕ) (terminal : EventTerminalState) (w : World)
        → HasUniqueIds w.table
        → let o = settle_with_retry env event_id terminal w in
          Settled event_id o × HasUniqueIds o.1.table × Evolves w.table o.1.table
    unfolding settle_with_retry
    settle_with_retry-Settled event_id terminal w u =
        let status = terminal_to_status terminal in
        let call = settle_bets_for_event env.pg env.weather event_id terminal Via.consumer in
        retry_rule env.tenacity is_transient call
          (λ (v : World). HasUniqueIds v.table × Evolves w.table v.table)
          (λ (o : Outcome SettleResult × World).
            Settled event_id o × HasUniqueIds o.1.table × Evolves w.table o.1.table)
          (λ v h.
            let f = settle_step event_id terminal v h.0 in
            let (u', g) =
              Flips-Evolves (env.weather v.begun) event_id status Via.consumer
                (λ (r : SettleResult). r.settled_bet_ids) (λ r. r.settled_count) v.table (call v) f
                h.0 in
            (
              (
                Flips-Settled event_id terminal (env.weather v.begun) v.table (call v)
                    (free v.begun) f,
                u',
                Evolves-trans h.1 g,
              ),
              (u', Evolves-trans h.1 g),
            ))
          2 w (u, Evolves-refl w.table)

  -- A delivery about an event with no PENDING bet.
  on_event_finished_idle :
      (message : EventFinishedMessage) (w : World)
      → HasUniqueIds w.table
      → count (is_open message.event_id) w.table ≡ 0
      → (on_event_finished env (some message) w).1.table ≡ w.table
  unfolding on_event_finished settle_with_retry
  on_event_finished_idle message w u h = elim (Bool-cases (message.schema_version == 1)) [
    | inl v ↦
        let call =
          settle_bets_for_event env.pg env.weather message.event_id message.new_state
            Via.consumer in
        rw (on_event_finished, v)
          (retry_rule env.tenacity is_transient call (λ (v : World). v.table ≡ w.table)
            (λ (o : Outcome SettleResult × World). o.1.table ≡ w.table)
            (λ v e.
              let same =
                Flips-idle (env.weather v.begun) message.event_id
                  (terminal_to_status message.new_state) Via.consumer
                  (λ (r : SettleResult). r.settled_bet_ids) (λ r. r.settled_count) v.table (call v)
                  (settle_step message.event_id message.new_state v (rw e u)) (rw e h)
                ∙ e in
              (same, same))
            2 w refl)
    | inr other ↦ rw (on_event_finished, other) refl
  ]

  -- What is known after a delivery, by its fate.
  abbrev pub Delivers : Payload → World → Fate × World → Type 0
  Delivers payload w (acked, w') =
      (message : EventFinishedMessage) × (payload ≡ some message)
      × (message.schema_version ≡ 1)
      × (count (is_open message.event_id) w'.table ≡ 0)
  Delivers payload w (rejected, w') = Unit
  Delivers payload w (left, w') = Unit

  acked_none :
      (message : EventFinishedMessage) (w : World) (o : Fate × World)
      → o.0 ≡ acked
      → Delivers (some message) w o
      → count (is_open message.event_id) o.1.table ≡ 0
  acked_none message w (acked, w') e (m, q, v, h) = rw (some_inj q) h
  acked_none message w (rejected, w') e d = cc
  acked_none message w (left, w') e d = cc

  module _ (free : (n i : ℕ) → (env.weather n).locked i ≡ false) where
    by_fate :
        (message : EventFinishedMessage) (w : World) (o : Outcome SettleResult × World)
        → message.schema_version ≡ 1
        → Settled message.event_id o
        → Delivers (some message) w (acknowledge o.0, o.1)
    by_fate message w (returned r, w') v h = (message, refl, v, h)
    by_fate message w (raised x, w') v h = elim (Bool-cases (is_exception x)) [
      | inl e ↦ rw e tt
      | inr e ↦ rw e tt
    ]

    -- With no row locked by another transaction, and whatever fails: an acknowledged message was a valid
    -- one of version 1, and none of its event's bets is left PENDING; a rejected or unhandled one may
    -- have been settled or not. In every case each bet keeps its event, amount and creation time, and
    -- a bet that was not PENDING is untouched; the ids stay unique.
    pub on_event_finished-Delivers :
        (payload : Payload) (w : World)
        → HasUniqueIds w.table
        → let o = on_event_finished env payload w in
          Delivers payload w o × HasUniqueIds o.1.table × Evolves w.table o.1.table
    unfolding on_event_finished
    on_event_finished-Delivers none w u = (tt, u, Evolves-refl w.table)
    on_event_finished-Delivers (some message) w u =
        elim (Bool-cases (message.schema_version == 1)) [
          | inl v ↦
              let h = settle_with_retry-Settled free message.event_id message.new_state w u in
              rw (on_event_finished, v)
                (
                  by_fate message w (settle_with_retry env message.event_id message.new_state w)
                      ((==_iff message.schema_version 1).0 v) h.0,
                  h.1,
                  h.2,
                )
          | inr other ↦ rw (on_event_finished, other) (tt, u, Evolves-refl w.table)
        ]

    -- Once a delivery is acknowledged, no later delivery about the same event changes the table, whatever
    -- it says and whatever fails.
    pub on_event_finished_again :
        (message later : EventFinishedMessage) (w : World)
        → HasUniqueIds w.table
        → (on_event_finished env (some message) w).0 ≡ acked
        → later.event_id ≡ message.event_id
        → let w' = (on_event_finished env (some message) w).1 in
          (on_event_finished env (some later) w').1.table ≡ w'.table
    on_event_finished_again message later w u done same =
        let o = on_event_finished env (some message) w in
        let (d, u', g) = on_event_finished-Delivers (some message) w u in
        on_event_finished_idle later o.1 u' (rw same (acked_none message w o done d))

  -- The k transactions from the n-th on fail to begin, with a transient exception, and the next one
  -- meets no failure and no lock.
  abbrev pub Stumbles : ℕ → ℕ → Type 0
  Stumbles zero n = IsFair (env.weather n)
  Stumbles (suc k) n =
      ((x : Exn) × ((env.weather n).fails at_begin ≡ some x) × (is_transient x ≡ true))
      × Stumbles k (n + 1)

  module _ (event_id : ℕ) (terminal : EventTerminalState) where
    abbrev call : World → Outcome SettleResult × World
    call = settle_bets_for_event env.pg env.weather event_id terminal Via.consumer

    call_stumbles :
        (w : World) (x : Exn)
        → (env.weather w.begun).fails at_begin ≡ some x
        → call w ≡ (raised x, record w { begun = w.begun + 1 })
    unfolding settle_bets_for_event
    call_stumbles w x e = ground arith

    retry-Stumbles :
        (attempts k : ℕ) (w : World)
        → k ≤ attempts
        → Stumbles k w.begun
        → IsReturned (env.tenacity.retry (suc attempts) is_transient call w)
    retry-Stumbles attempts zero w le fair =
        let (a, w', e) = returned_of (call w) (
          settle_bets_for_event-IsReturned env.pg env.weather event_id w fair terminal
            Via.consumer) in
        rw (env.tenacity.retry_returned attempts is_transient call w w' a e) tt
    retry-Stumbles zero (suc k) w le s = absurd (omega arith)
    retry-Stumbles (suc attempts) (suc k) w le ((x, e, again), s) =
        rw
          (env.tenacity.retry_again attempts is_transient call w (record w { begun = w.begun + 1 })
            x (call_stumbles w x e) again)
          (retry-Stumbles attempts k (record w { begun = w.begun + 1 }) (omega arith) s)

  acked_returned : (o : Outcome SettleResult × World) → IsReturned o → acknowledge o.0 ≡ acked
  acked_returned (returned r, w') h = refl
  acked_returned (raised x, w') h = absurd h

  -- A valid message of version 1 is acknowledged although up to two transactions fail to begin with
  -- transient exceptions, if the one after them meets no failure and no lock.
  pub on_event_finished_recovers :
      (message : EventFinishedMessage) (k : ℕ) (w : World)
      → message.schema_version ≡ 1
      → k ≤ 2
      → Stumbles k w.begun
      → (on_event_finished env (some message) w).0 ≡ acked
  unfolding on_event_finished settle_with_retry
  on_event_finished_recovers message k w v le s =
      rw (on_event_finished, (==_iff message.schema_version 1).1 v)
        (acked_returned (settle_with_retry env message.event_id message.new_state w)
          (retry-Stumbles message.event_id message.new_state 2 k w le s))
