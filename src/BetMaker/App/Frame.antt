-- ===== src/BetMaker/App/Frame.antt =====
-- The table over the life of the service.
use bsw.Common.{
  ℕ, ◌≡◌, inl, inr, refl, false, Option, none, some, List, [], ◌∷◌, contains, arith, Option-cases,
}
use mathlib.Core.Path.{subst}
use bsw.Money.{Decimal}
use bsw.LineProvider.Schemas.{EventState}
use bsw.BetMaker.Models.{BetStatus}
use bsw.BetMaker.Database.{Table, Weather, World}
use bsw.BetMaker.Database.Rows.{ids, HasUniqueIds}
use bsw.BetMaker.Settle.{terminal_to_status}
use bsw.BetMaker.Settle.Frame.{Evolves, Evolves-refl, Evolves-trans, flipped-Evolves}
use bsw.BetMaker.Client.{EventSnapshot}
use bsw.BetMaker.PlaceBet.{Env, new_bet, parse_bet_create, post_bet as post_bet_route}
use bsw.BetMaker.Interleaving.Captured.{cons-Evolves}
use bsw.BetMaker.Consumer.{Payload, on_event_finished}
use bsw.BetMaker.Preserves.{Stands, Holds, on_event_finished-Holds, place_bet-Holds}
use bsw.BetMaker.Preserves.Reconciling.{Justified, run_tick-Holds}
use bsw.BetMaker.App.{
  Call, post_bet, get_bet, get_bets, get_events, health, Request, Site, route, dispatch, Happening,
  request, delivery, tick, happen, live,
}

-- What the table has become since then.
module _ (t0 : Table) where
  since-Stands : (i : ℕ) (status : BetStatus) → Stands (Evolves t0) i status
  since-Stands i status = record {
    marked = λ e via t h. Evolves-trans h (flipped-Evolves e i status via t);
  }

  since-Justified : (i : ℕ) (found : Option EventSnapshot) → Justified (Evolves t0) i found
  since-Justified i none = since-Stands i BetStatus.cancelled
  since-Justified i (some s) = by_state s.state s refl
    where
      by_state :
          (st : EventState) (s : EventSnapshot) → s.state ≡ st → Justified (Evolves t0) i (some s)
      by_state EventState.new s e = rw e tt
      by_state EventState.finished_win s e = rw e (since-Stands i BetStatus.won)
      by_state EventState.finished_lose s e = rw e (since-Stands i BetStatus.lost)

  since-new_bet :
      (e : Weather) (event_id : ℕ) (amount : Decimal) (t : Table)
      → contains e.uuid (ids t) ≡ false
      → Evolves t0 t
      → Evolves t0 (new_bet e event_id amount ∷ t)
  since-new_bet e event_id amount t fresh h =
      Evolves-trans h (cons-Evolves (new_bet e event_id amount) t fresh)

  route-Holds :
      (site : Site) (r : Request) (c : Call) (w : World)
      → Holds (Evolves t0) w.table
      → Holds (Evolves t0) (route site r c w).1.table
  unfolding route
  route-Holds site r (post_bet body) w h = elim (Option-cases (parse_bet_create site.field body)) [
    | inl bad ↦ rw (route, post_bet_route, bad) h
    | inr (valid, good) ↦
        rw (route, post_bet_route, good)
          (place_bet-Holds (Evolves t0) site.env since-new_bet site.attempts r.now valid.event_id
            valid.amount w h)
  ]
  route-Holds site r (get_bet i) w h = subst (Holds (Evolves t0)) (ground arith) h
  route-Holds site r get_bets w h = subst (Holds (Evolves t0)) (ground arith) h
  route-Holds site r get_events w h = h
  route-Holds site r health w h = h

  delivery-Holds :
      (env : Env) (payload : Payload) (w : World)
      → Holds (Evolves t0) w.table
      → Holds (Evolves t0) (on_event_finished env payload w).1.table
  delivery-Holds env none w h = unfold on_event_finished in h
  delivery-Holds env (some m) w h =
      on_event_finished-Holds (Evolves t0) env m w
        (since-Stands m.event_id (terminal_to_status m.new_state)) h

  happen-Holds :
      (h : Happening) (w : World)
      → Holds (Evolves t0) w.table
      → Holds (Evolves t0) (happen h w).table
  happen-Holds (request site r c) w k = unfold dispatch in route-Holds site r r.call w k
  happen-Holds (delivery env payload) w k = delivery-Holds env payload w k
  happen-Holds (tick env attempts) w k =
      run_tick-Holds (Evolves t0) env (λ n j found e. since-Justified j found) attempts w k

  live-Holds :
      (hs : List Happening) (w : World)
      → Holds (Evolves t0) w.table
      → Holds (Evolves t0) (live hs w).table
  unfolding live
  live-Holds [] w k = k
  live-Holds (h ∷ hs) w k = live-Holds hs (happen h w) (happen-Holds h w k)

pub live-Evolves :
    (hs : List Happening) (w : World)
    → HasUniqueIds w.table
    → HasUniqueIds (live hs w).table × Evolves w.table (live hs w).table
live-Evolves hs w u =
    let h = live-Holds w.table hs w (record { unique = u; kept = Evolves-refl w.table }) in
    (h.unique, h.kept)
