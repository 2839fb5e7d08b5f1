-- ===== src/BetMaker/Interleaving/Once.antt =====
-- How often a bet is settled: the UPDATE names ids and tests no status, and the rows stay locked since
-- the SELECT.
use bsw.Common.{ℕ, ◌≡◌, ◌≢◌, true, false, some, contains}
use bsw.BetMaker.Database.{Postgres, Table}
use bsw.BetMaker.Database.Rows.{HasUniqueIds}
use bsw.BetMaker.Settle.Frame.{Evolves, Evolves-refl, Evolves-trans}
use bsw.BetMaker.Interleaving.{
  Settling, Sessions, Step, select, commit, abort, insert, Reach, here, next, idle_on,
}
use bsw.BetMaker.Interleaving.Captured.{cons-Evolves, none-ne-some, marked-Evolves, updated_rows}
use bsw.BetMaker.Interleaving.Exclusive.{others-Apart, IsExclusive, Step-IsExclusive}

module _ (pg : Postgres) where
  Step-Evolves : {d d' : Sessions} → Step pg d d' → IsExclusive d → Evolves d.rows d'.rows
  Step-Evolves (select d s event_id status via e bets idle locks h) v = Evolves-refl d.rows
  Step-Evolves (commit d s t e rows h u) v =
      rw (updated_rows pg t e d.rows rows u)
        (marked-Evolves t e.now d.rows (λ i m. v.open_still s t i h m))
  Step-Evolves (abort d s t h) v = Evolves-refl d.rows
  Step-Evolves (insert d b fresh) v = cons-Evolves b d.rows fresh

  idle_on-IsExclusive : (rows : Table) → HasUniqueIds rows → IsExclusive (idle_on rows)
  idle_on-IsExclusive rows u = record {
    unique = u;
    owns = λ s t i q m. cc;
    open_still = λ s t i q m. absurd (none-ne-some q);
  }

  Reach-IsExclusive : {d d' : Sessions} → Reach pg d d' → IsExclusive d → IsExclusive d'
  Reach-IsExclusive here v = v
  Reach-IsExclusive (next r s) v = Step-IsExclusive pg s (Reach-IsExclusive r v)

  Reach-from_reached : {d d' : Sessions} → Reach pg d d' → IsExclusive d → Evolves d.rows d'.rows
  Reach-from_reached {d} here v = Evolves-refl d.rows
  Reach-from_reached (next r s) v =
      Evolves-trans (Reach-from_reached r v) (Step-Evolves s (Reach-IsExclusive r v))

  -- However the sessions of settling and cancelling overlap, abort and commit, from a table with unique
  -- ids and no transaction running: between any two moments each bet keeps its event, its amount and
  -- its creation time, and a bet that is no longer PENDING stays as it is.
  pub Reach-Evolves :
      (rows : Table) {d d' : Sessions}
      → HasUniqueIds rows
      → Reach pg (idle_on rows) d
      → Reach pg d d'
      → Evolves d.rows d'.rows
  Reach-Evolves rows u r later =
      Reach-from_reached later (Reach-IsExclusive r (idle_on-IsExclusive rows u))

  -- However the sessions overlap, from a table with unique ids and no transaction running: at no
  -- moment have two sessions captured the same bet.
  pub Reach-disjoint :
      (rows : Table) {d : Sessions} (r s i : ℕ) (t u : Settling)
      → HasUniqueIds rows
      → Reach pg (idle_on rows) d
      → d.running r ≡ some t
      → d.running s ≡ some u
      → r ≢ s
      → contains i t.bet_ids ≡ true
      → contains i u.bet_ids ≡ false
  Reach-disjoint rows {d} r s i t u unique reach h k other m =
      others-Apart pg d (Reach-IsExclusive reach (idle_on-IsExclusive rows unique)) s u t r i k h
        other m
