-- ===== src/BetMaker/Reconciler/Tick.antt =====
-- A tick of the reconciler and its loop, when nothing fails but line-provider.
use bsw.Common.{
  zero, suc, ◌≤◌, Bool, ℕ, ◌+◌, ◌≡◌, ◌≢◌, ◌⊎◌, inl, refl, ap, ◌∙◌, true, Option, some, List, [],
  ◌∷◌, contains, any, arith, ◌==◌, ◌&&◌,
}
use bsw.BetMaker.Exceptions.{returned, cancelled_error}
use bsw.BetMaker.Models.{Bet, is_pending}
use bsw.BetMaker.Database.{Table, World}
use bsw.BetMaker.Database.Rows.{HasUniqueIds}
use bsw.BetMaker.Client.{EventSnapshot, client_raises, read_event}
use bsw.BetMaker.Settle.Flip.{IsFair}
use bsw.BetMaker.Settle.Frame.{find_bet, Keeps, Keeps-refl}
use bsw.BetMaker.PlaceBet.{Env}
use bsw.BetMaker.Reconciler.{
  reconcile_event, reconcile_all, get_pending_event_ids, run_tick, reconciliation_loop,
}
use bsw.BetMaker.Reconciler.Dispatch.{verdict}
use bsw.BetMaker.Reconciler.Resolves.{Resolves, Resolves-trans, Resolves-weaken}
use bsw.BetMaker.Reconciler.Effect.{reconcile_event-Effect, Effect-row, Effect-HasUniqueIds}

find_bet-any :
    (i k : ℕ) (b : Bet) (t : Table)
    → find_bet k t ≡ some b
    → is_pending b ≡ true
    → b.event_id ≡ i
    → any (λ b. is_pending b && (b.event_id == i)) t ≡ true
find_bet-any i k b [] h p e = cc
find_bet-any i k b (c ∷ t) h p e = ground (arith, find_bet-any i k b t)

module _ (env : Env) (attempts i : ℕ) (answer : Option EventSnapshot)
    (fair : (n : ℕ) → IsFair (env.weather n))
    (steady : (n : ℕ) → read_event (env.http.event n i) ≡ returned answer)
    (uncancelled : (n j : ℕ) → env.http.event n j ≢ client_raises cancelled_error) where
  listed : (j : ℕ) (is : List ℕ) → contains i (j ∷ is) ≡ true → (j ≡ i) ⊎ (contains i is ≡ true)
  listed j is h = ground arith

  -- The whole loop: it returns, and resolves each row of the event, where the event is among the ids.
  reconcile_all-Resolves :
      (is : List ℕ) (w : World)
      → HasUniqueIds w.table
      → let o = reconcile_all env attempts is w in
        (o.0 ≡ returned tt)
        × HasUniqueIds o.1.table
        × ((k : ℕ) (c : Bet)
            → find_bet k w.table ≡ some c
            → c.event_id ≡ i
            → (c' : Bet) × (find_bet k o.1.table ≡ some c')
              × Resolves answer (contains i is ≡ true) c c')
  unfolding reconcile_all
  reconcile_all-Resolves [] w u = (
    refl,
    u,
    λ k c h mine. (c, h, record { kept = Keeps-refl c; either = inl refl; resolved = λ q. cc }),
  )
  reconcile_all-Resolves (j ∷ is) w u =
      let e = reconcile_event-Effect env attempts i answer fair steady uncancelled j w u in
      let w' = (reconcile_event env attempts j w).1 in
      let later = reconcile_all-Resolves is w' (
        Effect-HasUniqueIds env attempts i answer fair steady uncancelled j w.table
          (reconcile_event env attempts j w) u e) in
      rw (reconcile_all, e.goes_on)
        (
          later.0,
          later.1,
          λ k c h mine.
              let (d, h', r) =
                Effect-row env attempts i answer fair steady uncancelled j k c w.table
                  (reconcile_event env attempts j w) h mine e in
              let (c', h'', r') = later.2 k d h' (r.kept.event ∙ mine) in
              (
                c',
                h'',
                Resolves-weaken answer (Resolves-trans answer (j ≡ i) (contains i is ≡ true) r r')
                    (listed j is),
              ),
        )

  get_pending_event_ids_fair :
      (w : World)
      → get_pending_event_ids env.pg env.weather w ≡ (
        returned (env.pg.select_distinct_event_id is_pending w.table),
        record w { begun = w.begun + 1 },
      )
  unfolding get_pending_event_ids
  get_pending_event_ids_fair w =
      rw (get_pending_event_ids, (fair w.begun).begins, (fair w.begun).selects) refl

  -- A tick: it returns, keeps the ids unique, and resolves each row of the event.
  run_tick-Resolves :
      (w : World)
      → HasUniqueIds w.table
      → let o = run_tick env attempts w in
        (o.0 ≡ returned tt)
        × HasUniqueIds o.1.table
        × ((k : ℕ) (c : Bet)
            → find_bet k w.table ≡ some c
            → c.event_id ≡ i
            → (c' : Bet) × (find_bet k o.1.table ≡ some c') × Resolves answer (Unit {0}) c c')
  unfolding run_tick
  run_tick-Resolves w u =
      let found = env.pg.select_distinct_event_id is_pending w.table in
      let all = reconcile_all-Resolves found (record w { begun = w.begun + 1 }) u in
      rw
        (
          run_tick,
          ap (λ o. o.0) (get_pending_event_ids_fair w),
          ap (λ o. o.1) (get_pending_event_ids_fair w),
        )
        (
          all.0,
          all.1,
          λ k c h mine.
              let (c', h', r) = all.2 k c h mine in
              (
                c',
                h',
                record {
                  kept = r.kept;
                  either = r.either;
                  resolved = λ now p.
                      r.resolved
                        (env.pg.select_distinct_event_id_lem is_pending w.table i
                          ∙ find_bet-any i k c w.table h p mine)
                        p;
                },
              ),
        )

  -- With no failure and no lock of the database, and an event `i` that every request for it finds in the
  -- same way, a tick returns, whatever happens to the lookups of other events short of a cancellation;
  -- and each bet on `i` that it found PENDING ends WON, LOST or CANCELLED as the answer says (PENDING
  -- still, for a NEW event), on the same event, for the same amount.
  pub run_tick-Resolved :
      (w : World) (k : ℕ) (b : Bet)
      → HasUniqueIds w.table
      → find_bet k w.table ≡ some b
      → b.event_id ≡ i
      → is_pending b ≡ true
      → let o = run_tick env attempts w in
        (o.0 ≡ returned tt)
        × (b' : Bet) × (find_bet k o.1.table ≡ some b')
        × Keeps b b'
        × (b'.status ≡ verdict answer)
  run_tick-Resolved w k b u h mine p =
      let (returns, unique, rows) = run_tick-Resolves w u in
      let (b', h', r) = rows k b h mine in (returns, b', h', r.kept, r.resolved tt p)

  module _ (sleeps : ℕ → Bool) (awake : (n : ℕ) → sleeps n ≡ true) where
    loop-Resolves :
        (rounds : ℕ) (w : World)
        → HasUniqueIds w.table
        → let o = reconciliation_loop env attempts sleeps rounds w in
          (o.0 ≡ returned tt)
          × ((k : ℕ) (c : Bet)
              → find_bet k w.table ≡ some c
              → c.event_id ≡ i
              → (c' : Bet) × (find_bet k o.1.table ≡ some c') × Resolves answer (1 ≤ rounds) c c')
    unfolding reconciliation_loop
    loop-Resolves zero w u = (
      refl,
      λ k c h mine. (
        c,
        h,
        record {
          kept = Keeps-refl c;
          either = inl refl;
          resolved = λ le. absurd (omega (arith, le));
        },
      ),
    )
    loop-Resolves (suc rounds) w u =
        let t = run_tick-Resolves w u in
        let later = loop-Resolves rounds (run_tick env attempts w).1 t.1 in
        rw (reconciliation_loop, awake rounds, t.0)
          (
            later.0,
            λ k c h mine.
                let (d, h', r) = t.2 k c h mine in
                let (c', h'', r') = later.1 k d h' (r.kept.event ∙ mine) in
                (
                  c',
                  h'',
                  Resolves-weaken answer (Resolves-trans answer (Unit {0}) (1 ≤ rounds) r r')
                      (λ le. inl tt),
                ),
          )

    -- In the same circumstances, and with no request or sleep cancelled: after one or more rounds of the
    -- loop, none of which raises, the bet stands as the answer says, on the same event, for the same amount.
    pub reconciliation_loop-Resolved :
        (rounds : ℕ) (w : World) (k : ℕ) (b : Bet)
        → 1 ≤ rounds
        → HasUniqueIds w.table
        → find_bet k w.table ≡ some b
        → b.event_id ≡ i
        → is_pending b ≡ true
        → let o = reconciliation_loop env attempts sleeps rounds w in
          (o.0 ≡ returned tt)
          × (b' : Bet) × (find_bet k o.1.table ≡ some b')
          × Keeps b b'
          × (b'.status ≡ verdict answer)
    reconciliation_loop-Resolved rounds w k b le u h mine p =
        let (returns, rows) = loop-Resolves rounds w u in
        let (b', h', r) = rows k b h mine in (returns, b', h', r.kept, r.resolved le p)
