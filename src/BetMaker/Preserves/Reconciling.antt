-- ===== src/BetMaker/Preserves/Reconciling.antt =====
-- The same of the reconciler and its loop, where every answer of line-provider justifies its marking.
use bsw.Common.{
  ℕ, zero, suc, ◌≡◌, inl, inr, refl, Bool, Option, none, some, List, [], ◌∷◌, arith, Bool-cases,
}
use bsw.LineProvider.Schemas.{EventState, EventTerminalState}
use bsw.BetMaker.Exceptions.{Outcome, returned, raised, Outcome-cases}
use bsw.BetMaker.Models.{BetStatus, Via}
use bsw.BetMaker.Database.{World, Table}
use bsw.BetMaker.Client.{EventSnapshot, read_event, get_event}
use bsw.BetMaker.Client.Answers.{get_event_read}
use bsw.BetMaker.Settle.{settle_bets_for_event, cancel_bets_for_event}
use bsw.BetMaker.PlaceBet.{Env}
use bsw.BetMaker.Reconciler.{
  done, continues, dispatch_snapshot, reconcile_event, reconcile_all, get_pending_event_ids,
  run_tick, reconciliation_loop,
}
use bsw.BetMaker.Preserves.{Stands, Holds, settle_bets_for_event-Holds, cancel_bets_for_event-Holds}

module _ (H : Table → Type 0) where
  -- What is found of an event justifies the marking that follows.
  abbrev pub Justified : ℕ → Option EventSnapshot → Type 0
  Justified j none = Stands H j BetStatus.cancelled
  Justified j (some s) = elim s.state [
    | EventState.finished_win ↦ Stands H j BetStatus.won
    | EventState.finished_lose ↦ Stands H j BetStatus.lost
    | EventState.new ↦ Unit
  ]

  done-Holds : {A : Type 0} (o : Outcome A × World) → Holds H o.1.table → Holds H (done o).1.table
  done-Holds (returned r, w) h = h
  done-Holds (raised x, w) h = h

  module _ (env : Env) where
    dispatch_state :
        (st : EventState) (j : ℕ) (s : EventSnapshot) (w : World)
        → s.state ≡ st
        → Justified j (some s)
        → Holds H w.table
        → Holds H (dispatch_snapshot env j (some s) w).1.table
    unfolding dispatch_snapshot
    dispatch_state EventState.new j s w e f h = rw e h
    dispatch_state EventState.finished_win j s w e f h = rw e (
        done-Holds
          (settle_bets_for_event env.pg env.weather j EventTerminalState.finished_win Via.reconciler
            w)
          (settle_bets_for_event-Holds H env j EventTerminalState.finished_win Via.reconciler w
            (rw e at f) h))
    dispatch_state EventState.finished_lose j s w e f h = rw e (
        done-Holds
          (settle_bets_for_event env.pg env.weather j EventTerminalState.finished_lose
            Via.reconciler w)
          (settle_bets_for_event-Holds H env j EventTerminalState.finished_lose Via.reconciler w
            (rw e at f) h))

    dispatch_snapshot-Holds :
        (j : ℕ) (found : Option EventSnapshot) (w : World)
        → Justified j found
        → Holds H w.table
        → Holds H (dispatch_snapshot env j found w).1.table
    dispatch_snapshot-Holds j none w f h =
        unfold dispatch_snapshot in
        done-Holds (cancel_bets_for_event env.pg env.weather j w)
          (cancel_bets_for_event-Holds H env j w f h)
    dispatch_snapshot-Holds j (some s) w f h = dispatch_state s.state j s w refl f h

    module _
        (just : (n j : ℕ) (found : Option EventSnapshot)
          → read_event (env.http.event n j) ≡ returned found
          → Justified j found)
        (attempts : ℕ) where
      reconcile_event-Holds :
          (j : ℕ) (w : World) → Holds H w.table → Holds H (reconcile_event env attempts j w).1.table
      unfolding reconcile_event
      reconcile_event-Holds j w h =
          elim (Outcome-cases (get_event env.tenacity env.http attempts j w.requests).0) [
            | inl (found, l) ↦
                let (n, r) = get_event_read env.tenacity env.http j w.requests attempts found l in
                rw (reconcile_event, l)
                  (dispatch_snapshot-Holds j found
                    (record w {
                      requests = (get_event env.tenacity env.http attempts j w.requests).1;
                    })
                    (just n j found r) h)
            | inr (x, l) ↦ rw (reconcile_event, l) h
          ]

      reconcile_all-Holds :
          (is : List ℕ) (w : World)
          → Holds H w.table
          → Holds H (reconcile_all env attempts is w).1.table
      unfolding reconcile_all
      reconcile_all-Holds [] w h = h
      reconcile_all-Holds (j ∷ is) w h =
          let h' = reconcile_event-Holds j w h in
          elim (Bool-cases (continues (reconcile_event env attempts j w).0)) [
            | inl on ↦
                rw (reconcile_all, on)
                  (reconcile_all-Holds is (reconcile_event env attempts j w).1 h')
            | inr stop ↦ rw (reconcile_all, stop) h'
          ]

      get_pending_event_ids-table :
          (w : World) → (get_pending_event_ids env.pg env.weather w).1.table ≡ w.table
      unfolding get_pending_event_ids
      get_pending_event_ids-table w = ground arith

      pub run_tick-Holds : (w : World) → Holds H w.table → Holds H (run_tick env attempts w).1.table
      unfolding run_tick
      run_tick-Holds w h =
          let h' : Holds H (get_pending_event_ids env.pg env.weather w).1.table =
            rw (get_pending_event_ids-table w) h in
          elim (Outcome-cases (get_pending_event_ids env.pg env.weather w).0) [
            | inl (is, e) ↦
                rw (run_tick, e)
                  (reconcile_all-Holds is (get_pending_event_ids env.pg env.weather w).1 h')
            | inr (x, e) ↦ rw (run_tick, e) h'
          ]

      -- Any number of rounds of the loop, whatever ends it.
      pub reconciliation_loop-Holds :
          (sleeps : ℕ → Bool) (rounds : ℕ) (w : World)
          → Holds H w.table
          → Holds H (reconciliation_loop env attempts sleeps rounds w).1.table
      unfolding reconciliation_loop
      reconciliation_loop-Holds sleeps zero w h = h
      reconciliation_loop-Holds sleeps (suc rounds) w h =
          let h' = run_tick-Holds w h in
          elim (Bool-cases (sleeps rounds)) [
            | inr cancelled ↦ rw (reconciliation_loop, cancelled) h
            | inl awake ↦ elim (Bool-cases (continues (run_tick env attempts w).0)) [
              | inl on ↦
                  rw (reconciliation_loop, awake, on)
                    (reconciliation_loop-Holds sleeps rounds (run_tick env attempts w).1 h')
              | inr stop ↦ rw (reconciliation_loop, awake, stop) h'
            ]
          ]
