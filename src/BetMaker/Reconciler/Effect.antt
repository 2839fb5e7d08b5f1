-- ===== src/BetMaker/Reconciler/Effect.antt =====
-- One event of a tick, when nothing fails but line-provider.
use bsw.Common.{ℕ, ◌≡◌, ◌≢◌, ◌⊎◌, inl, inr, refl, sym, ap, ◌∙◌, true, Option, some, map, arith}
use bsw.BetMaker.Exceptions.{
  returned_inj, raised_inj, returned-ne-raised, Exn, Outcome, returned, raised, Outcome-cases,
  is_exception, is_exception_lem, cancelled_error,
}
use bsw.BetMaker.Models.{Bet}
use bsw.BetMaker.Database.{Table, World}
use bsw.BetMaker.Database.Rows.{HasUniqueIds, map-HasUniqueIds}
use bsw.BetMaker.Client.{EventSnapshot, client_raises, read_event, get_event}
use bsw.BetMaker.Client.Answers.{Answers, get_event-Answers, get_event-Recovers}
use bsw.BetMaker.Settle.Flip.{IsFair}
use bsw.BetMaker.Settle.Frame.{find_bet, find_bet-map, Keeps-refl}
use bsw.BetMaker.PlaceBet.{Env}
use bsw.BetMaker.Reconciler.{continues, reconcile_event}
use bsw.BetMaker.Reconciler.Dispatch.{
  row_after, row_after-id, dispatched-map, dispatch_snapshot-IsDispatched,
}
use bsw.BetMaker.Reconciler.Resolves.{Resolves, row_after-Resolves}

module _ (env : Env) (attempts i : ℕ) (answer : Option EventSnapshot)
    (fair : (n : ℕ) → IsFair (env.weather n))
    (steady : (n : ℕ) → read_event (env.http.event n i) ≡ returned answer)
    (uncancelled : (n j : ℕ) → env.http.event n j ≢ client_raises cancelled_error) where
  -- What `_reconcile_event` did: it raised nothing that ends the loop, and left the table alone, for
  -- another event only, or dispatched what the lookup found, for the event itself the answer.
  pub record Effect (j : ℕ) (t : Table) (o : Outcome (Unit {0}) × World) : Type 0 where
    pub goes_on : continues o.0 ≡ true
    pub change :
        ((o.1.table ≡ t) × (j ≢ i))
        ⊎ ((found : Option EventSnapshot) × (n : ℕ) × (o.1.table
              ≡ map (row_after (env.weather n) j found) t)
            × (j ≡ i → found ≡ answer))

  module _ (j : ℕ) (w : World) (u : HasUniqueIds w.table) where
    abbrev looked_up : Outcome (Option EventSnapshot) × ℕ
    looked_up = get_event env.tenacity env.http attempts j w.requests

    -- The lookup of the event itself returns the answer.
    own_answer : j ≡ i → looked_up.0 ≡ returned answer
    own_answer e =
        get_event-Recovers env.tenacity env.http j w.requests attempts 0 answer (omega arith)
          (rw e (steady w.requests))

    failed_lookup :
        (x : Exn) (o : Outcome (Option EventSnapshot) × ℕ)
        → Answers env.tenacity env.http j w.requests o
        → o.0 ≡ raised x
        → is_exception x ≡ true
    failed_lookup x (returned a, n') h e = cc
    failed_lookup x (raised y, n') h e =
        let (n, sent, why) = h in
        elim why [
          | inl q ↦ ap is_exception (sym (raised_inj e) ∙ q)
          | inr (inl q) ↦ ap is_exception (sym (raised_inj e) ∙ q.0)
          | inr (inr q) ↦
              is_exception_lem x (λ c. uncancelled n j (q.0 ∙ ap client_raises (raised_inj e ∙ c)))
        ]

    after_lookup :
        (found : Option EventSnapshot)
        → looked_up.0 ≡ returned found
        → Effect j w.table (reconcile_event env attempts j w)
    unfolding reconcile_event
    after_lookup found l =
        let w' : World = record w { requests = looked_up.1 } in
        let d = dispatch_snapshot-IsDispatched env fair j found w' u in
        rw (reconcile_event, l)
          record {
            goes_on = ap continues d.0;
            change = inr (
              found,
              w.begun,
              d.1 ∙ dispatched-map (env.weather w.begun) (fair w.begun) j found w.table,
              λ e. returned_inj (sym l ∙ own_answer e),
            );
          }

    after_failure :
        (x : Exn) → looked_up.0 ≡ raised x → Effect j w.table (reconcile_event env attempts j w)
    unfolding reconcile_event
    after_failure x l =
        rw (reconcile_event, l)
          record {
            goes_on =
                failed_lookup x looked_up
                  (get_event-Answers env.tenacity env.http j w.requests attempts) l;
            change = inl (refl, λ e. returned-ne-raised (sym (own_answer e) ∙ l));
          }

    pub reconcile_event-Effect : Effect j w.table (reconcile_event env attempts j w)
    reconcile_event-Effect = elim (Outcome-cases looked_up.0) [
      | inl (found, l) ↦ after_lookup found l
      | inr (x, l) ↦ after_failure x l
    ]

  pub Effect-row :
      (j k : ℕ) (c : Bet) (t : Table) (o : Outcome (Unit {0}) × World)
      → find_bet k t ≡ some c
      → c.event_id ≡ i
      → Effect j t o
      → (c' : Bet) × (find_bet k o.1.table ≡ some c') × Resolves answer (j ≡ i) c c'
  Effect-row j k c t o h mine e = elim e.change [
    | inl (same, other) ↦ (
      c,
      rw same h,
      record { kept = Keeps-refl c; either = inl refl; resolved = λ now. absurd (other now) },
    )
    | inr (found, n, changed, told) ↦ (
      row_after (env.weather n) j found c,
      rw changed (
          find_bet-map (row_after (env.weather n) j found)
            (row_after-id (env.weather n) (fair n) j found) k c t h),
      row_after-Resolves answer i (env.weather n) (fair n) j found c mine told,
    )
  ]

  pub Effect-HasUniqueIds :
      (j : ℕ) (t : Table) (o : Outcome (Unit {0}) × World)
      → HasUniqueIds t
      → Effect j t o
      → HasUniqueIds o.1.table
  Effect-HasUniqueIds j t o u e = elim e.change [
    | inl (same, other) ↦ rw same u
    | inr (found, n, changed, told) ↦ rw changed (
        map-HasUniqueIds (row_after (env.weather n) j found)
          (row_after-id (env.weather n) (fair n) j found) t u)
  ]
