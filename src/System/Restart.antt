-- ===== src/System/Restart.antt =====
-- line-provider keeps its events in memory: what a restart of it does to the bets.
use bsw.Common.{ℕ, ◌≡◌, true, none, some, List, [], refl, arith}
use bsw.Common.Dict.{lookup}
use bsw.LineProvider.Schemas.{FieldTest}
use bsw.LineProvider.Service.{Broker, LineProvider}
use bsw.LineProvider.Api.{Request, serve}
use bsw.LineProvider.Lifespan.{Failures, LineProviderSettings, startup, get_store}
use bsw.LineProvider.Store.{InMemoryEventStore}
use bsw.LineProvider.Steps.Absent.{AllSpare, serve-absent}
use bsw.BetMaker.Exceptions.{returned}
use bsw.BetMaker.Models.{Bet, BetStatus, is_pending}
use bsw.BetMaker.Database.{World}
use bsw.BetMaker.Database.Rows.{HasUniqueIds}
use bsw.BetMaker.Settle.Flip.{IsFair}
use bsw.BetMaker.Settle.Frame.{find_bet, Keeps}
use bsw.BetMaker.PlaceBet.{Env}
use bsw.BetMaker.Reconciler.{run_tick}
use bsw.System.{connected}
use bsw.System.Settlement.{run_tick_unknown}

-- A start that raises nothing pins a store, and the store is empty.
started_empty :
    (fails : Failures) (s : LineProviderSettings) (client : ℕ)
    → (startup fails s client).raised ≡ none
    → (store : InMemoryEventStore) × (get_store (startup fails s client).app ≡ some store)
      × ((i : ℕ) → lookup i store ≡ none)
unfolding startup lookup
started_empty fails s client h = ([], ground arith, λ i. refl)

module _ (broker : Broker) (field : FieldTest) (before : LineProvider) where
  -- line-provider with the store of a new start, and the requests since then; RabbitMQ has what it was
  -- sent before.
  abbrev pub restarted : InMemoryEventStore → List Request → LineProvider
  restarted store rs = serve broker field rs (record before { store = store })

  -- With no failure and no lock of the database, unique ids, and over a network that loses nothing:
  -- line-provider has started anew and nothing was raised, whatever it had stored and published before.
  -- Then its providers find a store, and until the event of a PENDING bet is posted again, a tick returns
  -- and the bet ends CANCELLED, on the same event and for the same amount.
  pub run_tick-restarted :
      (fails : Failures) (s : LineProviderSettings) (client : ℕ) (rs : List Request) (env : Env)
      (clock attempts : ℕ) (w : World) (k : ℕ) (b : Bet)
      → (startup fails s client).raised ≡ none
      → ((n : ℕ) → IsFair (env.weather n))
      → HasUniqueIds w.table
      → find_bet k w.table ≡ some b
      → is_pending b ≡ true
      → AllSpare b.event_id rs
      → (store : InMemoryEventStore) × (get_store (startup fails s client).app ≡ some store)
        × let o =
            run_tick (record env { http = connected clock (restarted store rs) }) attempts w in
          (o.0 ≡ returned tt)
          × (b' : Bet) × (find_bet k o.1.table ≡ some b')
          × Keeps b b'
          × (b'.status ≡ BetStatus.cancelled)
  run_tick-restarted fails s client rs env clock attempts w k b starts fair unique there pending
        spared =
      let (store, found, empty) = started_empty fails s client starts in
      (
        store,
        found,
        run_tick_unknown env (restarted store rs) clock attempts fair w k b unique there pending (
            serve-absent broker field b.event_id rs (record before { store = store }) spared
              (empty b.event_id)),
      )
