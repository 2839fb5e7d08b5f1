-- ===== src/BetMaker/Lifespan/Release.antt =====
-- What the lifespan gives back at the end.
use bsw.Common.{
  ℕ, zero, suc, ◌≡◌, refl, Bool, true, false, not, Option, none, some, [], ◌∷◌, arith, inl, inr,
  Bool-cases,
}
use bsw.BetMaker.Exceptions.{Exn, Outcome, returned, raised, is_exception}
use bsw.BetMaker.AppState.{AppState}
use bsw.BetMaker.Database.{World}
use bsw.BetMaker.PlaceBet.{Env}
use bsw.BetMaker.Reconciler.{continues, run_tick, reconciliation_loop}
use bsw.BetMaker.Lifespan.{
  cancel_reconciler, await_reconciler, close_broker, close_http_client, dispose_engine, Failures,
  shutdown,
}

-- Whether awaiting a task with this end raises no `Exception`.
abbrev ends_quietly : Option Exn → Bool
ends_quietly none = true
ends_quietly (some x) = not (is_exception x)

-- What awaiting a task raises, by how it ended.
abbrev pub raised_by : Outcome (Unit {0}) → Option Exn
raised_by (returned u) = none
raised_by (raised x) = some x

shutdown_quiet :
    (fails : Failures) (app : AppState)
    → fails cancel_reconciler ≡ none
    → ends_quietly (fails await_reconciler) ≡ true
    → (shutdown fails app).1.log
      ≡ cancel_reconciler ∷ await_reconciler ∷ close_broker ∷ close_http_client ∷ dispose_engine
        ∷ []
unfolding shutdown
shutdown_quiet fails app c q = ground arith

module _ (env : Env) (attempts : ℕ) (sleeps : ℕ → Bool) where
  -- The loop raises nothing but what no `except Exception` catches.
  loop_quiet :
      (rounds : ℕ) (w : World)
      → ends_quietly (raised_by (reconciliation_loop env attempts sleeps rounds w).0) ≡ true
  unfolding reconciliation_loop
  loop_quiet zero w = refl
  loop_quiet (suc rounds) w = elim (Bool-cases (sleeps rounds)) [
    | inr cancelled ↦ rw (reconciliation_loop, cancelled) refl
    | inl awake ↦ elim (Bool-cases (continues (run_tick env attempts w).0)) [
      | inl on ↦ rw (reconciliation_loop, awake, on) (loop_quiet rounds (run_tick env attempts w).1)
      | inr stop ↦ rw (reconciliation_loop, awake, stop) (stopped (run_tick env attempts w).0 stop)
    ]
  ]
    where
      stopped : (o : Outcome (Unit {0})) → continues o ≡ false → ends_quietly (raised_by o) ≡ true
      stopped (returned u) h = refl
      stopped (raised x) h = ground arith

  -- At the end the broker, the HTTP client and the engine are closed in that order after the
  -- reconciler's task was cancelled and awaited, each of them although others raise, if `cancel()`
  -- raises nothing and the task ended as the loop does in any number of rounds: for no round of
  -- the loop raises an `Exception`.
  pub shutdown-reconciliation_loop :
      (rounds : ℕ) (w : World) (fails : Failures) (app : AppState)
      → fails cancel_reconciler ≡ none
      → fails await_reconciler ≡ raised_by (reconciliation_loop env attempts sleeps rounds w).0
      → (shutdown fails app).1.log
        ≡ cancel_reconciler ∷ await_reconciler ∷ close_broker ∷ close_http_client ∷ dispose_engine
          ∷ []
  shutdown-reconciliation_loop rounds w fails app c h =
      shutdown_quiet fails app c (rw h (loop_quiet rounds w))
